-- ===== src/Sched/Kernel/Keeps.antt =====
-- sched.c: the operations that move a thread between the table and the chains.
use rv.Sched.Kernel.Wake.{waitq_pop_best-none, waitq_pop_best-removes}
use rv.Prelude.{
  ℕ, zero, suc, ◌≡◌, refl, sym, ap, ◌∙◌, inl, inr, true, false, Option, none, some, List, arith,
  ◌==◌, if◌then◌else◌, Bool-cases, Option-cases, List-cases, get_elem?,
}
use rv.Sched.{Thread, is_dead}
use rv.Sched.Kernel.{
  Kernel, pending_max, on_thread, waitq_push, waitq_remove, woken, waitq_pop_best, pend_wake,
  drain_loop, drain_pending, blocking, block_start, blocked_on_of, is_on, unblocked, block_end,
  unqueue,
}
use rv.Sched.Kernel.Linked.{waits_on, remove-Linked, push-Linked}
use rv.Sched.Kernel.Slots.{at_slot_self, at_slot-other, all-at_slot_one}
use rv.Sched.Kernel.Sound.{Sound, is_quiet, Tamed-refl, Sound-Tamed}

-- The slot of a thread that waits holds a thread.
waits-thread :
    (ths : List Thread) (i q : ℕ)
    → blocked_on_of (get_elem? ths i) ≡ some q
    → (th : Thread) × (get_elem? ths i ≡ some th) × (th.blocked_on ≡ some q)
waits-thread ths i q h = elim (Option-cases (get_elem? ths i)) [
  | inl none_there ↦ absurd (ground (arith, none_there))
  | inr (th, e) ↦ (th, e, ground (arith, e))
]

is_on-some : (o : Option ℕ) (q : ℕ) → is_on o q ≡ true → o ≡ some q
is_on-some none q h = absurd (cc)
is_on-some (some r) q h = ground arith

-- `inside`, once the thread in slot `i` is in the call `o`.
abbrev pub put_at : ℕ → Option ℕ → (ℕ → Option ℕ) → ℕ → Option ℕ
put_at i o inside j = if i == j then o else inside j

module _ (inside inside' : ℕ → Option ℕ) (q i : ℕ) (f : Thread → Thread) (th : Thread) (k : Kernel)
    (at : get_elem? k.threads i ≡ some th)
    (others : (j : ℕ) → (i == j) ≡ false → inside' j ≡ inside j) (s : Sound inside k) where
  -- A thread leaves the chain that it is in.
  pub remove-Sound :
      (f th).blocked_on ≡ none
      → th.blocked_on ≡ some q
      → Sound inside' (on_thread i f (waitq_remove q i k))
  remove-Sound clears on = record {
    links = remove-Linked q i f th k clears at on s.links;
    quiet =
        all-at_slot_one is_quiet is_quiet i f k.threads th (λ a h. h) at (ground (arith, clears))
          s.quiet;
    waits_inside = λ j r h. elim (Bool-cases (i == j)) [
      | inl self ↦ absurd (ground (arith, at_slot_self i f k.threads th at, clears))
      | inr other ↦
          ground (arith, at_slot-other i j f k.threads other, others j other, s.waits_inside j r)
    ];
  }

  -- A thread that waits on nothing joins a chain.
  pub push-Sound :
      (f th).blocked_on ≡ some q
      → is_dead (f th) ≡ false
      → th.blocked_on ≡ none
      → inside' i ≡ some q
      → Sound inside' (waitq_push q i (on_thread i f k))
  push-Sound waits alive on now = record {
    links = push-Linked q i f th k waits at on s.links;
    quiet =
        all-at_slot_one is_quiet is_quiet i f k.threads th (λ a h. h) at (ground (arith, alive))
          s.quiet;
    waits_inside = λ j r h. elim (Bool-cases (i == j)) [
      | inl self ↦ ground (arith, at_slot_self i f k.threads th at, waits, now)
      | inr other ↦
          ground (arith, at_slot-other i j f k.threads other, others j other, s.waits_inside j r)
    ];
  }

-- A change of the kernel that leaves the threads and the chains.
pub Sound-same :
    (inside : ℕ → Option ℕ) (a b : Kernel)
    → b.queues ≡ a.queues
    → b.threads ≡ a.threads
    → Sound inside a
    → Sound inside b
Sound-same inside a b qs ths s =
    Sound-Tamed inside a b (λ q. ap (λ f. f q) qs) (rw ths (Tamed-refl a.threads)) s

module _ (inside : ℕ → Option ℕ) where
  pub waitq_pop_best-Sound :
      (q : ℕ) (k : Kernel) → Sound inside k → Sound inside (waitq_pop_best q k).1
  waitq_pop_best-Sound q k s = elim (List-cases (k.queues q)) [
    | inl empty ↦ rw (waitq_pop_best-none q k empty) s
    | inr (i, is, e) ↦
        let (n, m, pops) = waitq_pop_best-removes q i is k e in
        let (th, at, on) =
          waits-thread k.threads n q (is_on-some (waits_on k n) q (sym (s.links.linked q n) ∙ m)) in
        rw pops (remove-Sound inside inside q n woken th k at (λ j h. refl) s refl on)
  ]

  drain_loop-Sound : (n : ℕ) (k : Kernel) → Sound inside k → Sound inside (drain_loop n k)
  unfolding drain_loop
  drain_loop-Sound zero k s = s
  drain_loop-Sound (suc n) k s = elim (Bool-cases (k.pend_tail == k.pend_head)) [
    | inl empty ↦ rw empty s
    | inr some_there ↦
        rw some_there
          (drain_loop-Sound n _ (waitq_pop_best-Sound _ _ (Sound-same inside k _ refl refl s)))
  ]

  pub drain_pending-Sound : (k : Kernel) → Sound inside k → Sound inside (drain_pending k)
  unfolding drain_pending
  drain_pending-Sound k s = drain_loop-Sound pending_max k s

  pub pend_wake-Sound : (q : ℕ) (k : Kernel) → Sound inside k → Sound inside (pend_wake q k)
  unfolding pend_wake
  pend_wake-Sound q k s = Sound-same inside k (pend_wake q k) (ground arith) (ground arith) s

  -- A thread that a queue holds leaves it.
  pub unqueue-Sound : (i : ℕ) (k : Kernel) → Sound inside k → Sound inside (unqueue i k)
  unfolding unqueue
  unqueue-Sound i k s = elim (Option-cases (waits_on k i)) [
    | inl nowhere ↦ rw (nowhere, unqueue) s
    | inr (q, on) ↦
        let (th, at, e) = waits-thread k.threads i q on in
        rw (on, unqueue) (remove-Sound inside inside q i unblocked th k at (λ j h. refl) s refl e)
  ]

  -- And then waits on nothing.
  pub unqueue-nowhere :
      (i : ℕ) (k : Kernel) (th : Thread)
      → get_elem? (unqueue i k).threads i ≡ some th
      → th.blocked_on ≡ none
  unfolding unqueue
  unqueue-nowhere i k th h = elim (Option-cases (waits_on k i)) [
    | inl nowhere ↦ ground (arith, nowhere)
    | inr (q, on) ↦
        let (a, at, e) = waits-thread k.threads i q on in
        ground (arith, on, at_slot_self i unblocked k.threads a at)
  ]

-- `block_on` before the switch, by the thread that runs.
pub block_start-Sound :
    (inside : ℕ → Option ℕ) (q t self : ℕ) (th : Thread) (k : Kernel)
    → get_elem? k.threads self ≡ some th
    → inside self ≡ none
    → Sound inside k
    → Sound (put_at self (some q) inside) (block_start q t self k)
unfolding block_start
block_start-Sound inside q t self th k at outside s =
    let on : th.blocked_on ≡ none = elim (Option-cases th.blocked_on) [
      | inl e ↦ e
      | inr (r, e) ↦ absurd (ground (arith, s.waits_inside self r, at, e))
    ] in
    Sound-same (put_at self (some q) inside)
      (waitq_push q self (on_thread self (blocking q t k.ticks) k)) _ refl refl
      (push-Sound inside (put_at self (some q) inside) q self (blocking q t k.ticks) th k at
        (λ j h. ground arith) s refl refl on (ground arith))

-- A thread that waits on nothing is in no call.
pub outside-Sound :
    (inside : ℕ → Option ℕ) (self : ℕ) (k : Kernel)
    → waits_on k self ≡ none
    → Sound inside k
    → Sound (put_at self none inside) k
outside-Sound inside self k nowhere s = record {
  links = s.links;
  quiet = s.quiet;
  waits_inside = λ j r h. elim (Bool-cases (self == j)) [
    | inl same ↦
        let e : self ≡ j = ground arith in absurd (ground (arith, sym nowhere ∙ ap (waits_on k) e))
    | inr other ↦ ground (arith, s.waits_inside j r h)
  ];
}

-- And after it.
pub block_end-Sound :
    (inside : ℕ → Option ℕ) (q self : ℕ) (k : Kernel)
    → inside self ≡ some q
    → Sound inside k
    → Sound (put_at self none inside) (block_end q self k).1
unfolding block_end
block_end-Sound inside q self k in_it s = elim (Option-cases (waits_on k self)) [
  | inl nowhere ↦ rw (nowhere, block_end) (outside-Sound inside self k nowhere s)
  | inr (r, on) ↦
      let (th, at, e) = waits-thread k.threads self r on in
      let here : r ≡ q = ground (arith, s.waits_inside self r on, in_it) in
      let on_q : waits_on k self ≡ some q = on ∙ ap some here in
      let same : (q == q) ≡ true = ground arith in
      rw (on_q, same, block_end)
        (remove-Sound inside (put_at self none inside) q self unblocked th k at
          (λ j h. ground arith) s refl (e ∙ ap some here))
]
