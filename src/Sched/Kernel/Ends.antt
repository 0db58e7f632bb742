-- ===== src/Sched/Kernel/Ends.antt =====
-- sched.c: how threads begin and end, the host's turn, and the lock of the scheduler.
use rv.Sched.Kernel.Slots.{at_slot_self}
use rv.Prelude.{
  ℕ, suc, ◌+◌, ◌*◌, ◌%◌, ◌^◌, ◌≡◌, refl, ap, ◌∙◌, inl, inr, true, false, ◌||◌, Option, none, some,
  List, [], ◌∷◌, arith, ltb, ◌==◌, Bool-cases, Option-cases, get_elem?, all-get_elem?,
}
use rv.Sched.{Thread, is_dead, pick_next, is_current, stack_pad_words}
use rv.Sched.Kernel.{
  Kernel, on_thread, drain_pending, enter, housekeep, blocked_on_of, unqueue, died, exit_start,
  thread_kill, killed, cancelled, thread_stop, asleep, sleep_start, one_less, sched_unlock,
}
use rv.Sched.Kernel.Create.{
  is_free, free_from, stack_words, frame, new_stack, fresh, allocate, thread_create, serve_turn,
}
use rv.Sched.Kernel.Linked.{waits_on}
use rv.Sched.Kernel.Sound.{Sound, is_quiet}
use rv.Sched.Kernel.Keeps.{
  put_at, Sound-same, drain_pending-Sound, unqueue-Sound, unqueue-nowhere, outside-Sound,
}
use rv.Sched.Kernel.Passes.{
  may_switch, housekeep-Sound, on_thread-Sound, enter-Sound, reschedule-Sound,
}

-- The calls once a slot has a new thread, if one has.
abbrev pub cleared : Option ℕ → (ℕ → Option ℕ) → ℕ → Option ℕ
cleared none w = w
cleared (some i) w = put_at i none w

-- A thread in no call waits on nothing.
outside-nothing :
    (w : ℕ → Option ℕ) (i : ℕ) (k : Kernel)
    → w i ≡ none
    → Sound w k
    → (a : Thread) → get_elem? k.threads i ≡ some a
    → a.blocked_on ≡ none
outside-nothing w i k outside s a at = elim (Option-cases a.blocked_on) [
  | inl e ↦ e
  | inr (q, e) ↦ absurd (ground (arith, s.waits_inside i q, at, e))
]

module _ (w : ℕ → Option ℕ) where
  died-quiet :
      (i : ℕ) (f : Thread → Thread) (k : Kernel)
      → ((a : Thread) → (f a).blocked_on ≡ a.blocked_on)
      → ((a : Thread) → get_elem? k.threads i ≡ some a → a.blocked_on ≡ none)
      → Sound w k
      → Sound w (on_thread i f k)
  died-quiet i f k same nothing s =
      on_thread-Sound w i f k
        (λ a at. record { same = same a; stays_quiet = λ h. ground (arith, same a, nothing a at) })
        s

  pub thread_kill-Sound :
      (i : ℕ) (k : Kernel) → is_current k.current i ≡ false → Sound w k → Sound w (thread_kill i k)
  unfolding thread_kill
  thread_kill-Sound i k other s =
      rw other (
        died-quiet i died (unqueue i k) (λ a. refl) (unqueue-nowhere w i k) (unqueue-Sound w i k s))

  pub thread_stop-Sound : (i : ℕ) (k : Kernel) → Sound w k → Sound w (thread_stop i k).1
  unfolding thread_stop
  thread_stop-Sound i k s = elim (Option-cases (get_elem? k.threads i)) [
    | inl none_there ↦ rw (none_there, thread_stop) s
    | inr (th, at) ↦ elim (Bool-cases (is_current k.current i || is_dead th)) [
      | inl useless ↦ rw (at, useless, thread_stop) s
      | inr useful ↦ elim (Bool-cases (ltb 0 th.holds)) [
        | inl holds ↦
            rw (at, useful, holds, thread_stop)
              (on_thread-Sound w i cancelled k (λ a e. record { same = refl; stays_quiet = λ h. h })
                s)
        | inr free ↦
            rw (at, useful, free, thread_stop)
              (died-quiet i killed (unqueue i k) (λ a. refl) (unqueue-nowhere w i k)
                (unqueue-Sound w i k s))
      ]
    ]
  ]

  pub sleep_start-Sound : (ticks : ℕ) (k : Kernel) → Sound w k → Sound w (sleep_start ticks k)
  unfolding sleep_start
  sleep_start-Sound ticks k s = elim (Option-cases k.current) [
    | inl idle ↦ rw (idle, sleep_start) s
    | inr (i, e) ↦
        rw (e, sleep_start)
          (on_thread-Sound w i (asleep k.ticks ticks) k
            (λ a at. record { same = refl; stays_quiet = λ h. refl }) s)
  ]

  pub exit_start-Sound :
      (self : ℕ) (k : Kernel)
      → k.current ≡ some self
      → w self ≡ none
      → Sound w k
      → Sound w (exit_start k)
  unfolding exit_start
  exit_start-Sound self k e outside s =
      rw (e, exit_start) (died-quiet self died k (λ a. refl) (outside-nothing w self k outside s) s)

  pub serve_turn-Sound : (k : Kernel) → Sound w k → Sound w (serve_turn k).0
  unfolding serve_turn
  serve_turn-Sound k s =
      let kept = housekeep (drain_pending k) in
      let after : Sound w kept = housekeep-Sound w _ (drain_pending-Sound w k s) in
      elim (Option-cases (pick_next kept.threads)) [
        | inl none_there ↦ rw (none_there, serve_turn) after
        | inr ((i, th), e) ↦
            rw (e, serve_turn)
              (Sound-same w (on_thread i (enter kept.ticks ((kept.switches + 1) % 2 ^ 64)) kept) _
                refl refl (enter-Sound w i ((kept.switches + 1) % 2 ^ 64) kept after))
      ]

  pub sched_unlock-Sound :
      (k : Kernel)
      → may_switch (record k { sched_lock = one_less k.sched_lock }) ≡ true
      → Sound w k
      → Sound w (sched_unlock k).0
  unfolding sched_unlock
  sched_unlock-Sound k sane s =
      let less : Sound w (record k { sched_lock = one_less k.sched_lock }) =
        Sound-same w k _ refl refl s in
      elim (Option-cases k.current) [
        | inl idle ↦ rw (idle, sched_unlock) less
        | inr (i, e) ↦ elim (Bool-cases (one_less k.sched_lock == 0)) [
          | inl last ↦ rw (e, last, sched_unlock) (reschedule-Sound w _ sane less)
          | inr more ↦ rw (e, more, sched_unlock) less
        ]
      ]

free_from-is_free :
    (n i : ℕ) (ths : List Thread)
    → free_from n ths ≡ some i
    → (j : ℕ) × (a : Thread) × (i ≡ n + j) × (get_elem? ths j ≡ some a) × (is_free a ≡ true)
unfolding free_from
free_from-is_free n i [] h = absurd (cc)
free_from-is_free n i (th ∷ ths) h = elim (Bool-cases (is_free th)) [
  | inl free ↦ (0, th, ground (arith, free), refl, free)
  | inr taken ↦
      let (j, a, e, at, free) = free_from-is_free (n + 1) i ths (ground (arith, taken)) in
      (suc j, a, omega (arith, e), at, free)
]

fresh-Sound :
    (w : ℕ → Option ℕ) (i : ℕ) (words name : List ℕ) (priority : ℕ) (k : Kernel)
    → free_from 0 k.threads ≡ some i
    → Sound w k
    → Sound (put_at i none w) (on_thread i (fresh words name priority) k)
unfolding fresh
fresh-Sound w i words name priority k e s =
    let (j, a, there, at, free) = free_from-is_free 0 i k.threads e in
    let same : i ≡ j = omega (arith, there) in
    let at_i : get_elem? k.threads i ≡ some a = ap (get_elem? k.threads) same ∙ at in
    let nothing : a.blocked_on ≡ none =
      ground (arith, all-get_elem? is_quiet k.threads i s.quiet at_i, free) in
    let nowhere : waits_on k i ≡ none = ground (arith, at_i, nothing) in
    outside-Sound w i (on_thread i (fresh words name priority) k)
      (ap blocked_on_of (at_slot_self i (fresh words name priority) k.threads a at_i))
      (on_thread-Sound w i (fresh words name priority) k
        (λ b at_b. record { same = ground (arith, nothing, at_b, at_i); stays_quiet = λ h. refl })
        s)

pub thread_create-Sound :
    (w : ℕ → Option ℕ) (ctx trampoline fn arg bytes priority : ℕ) (alloc : Option (ℕ → Option ℕ))
    (name : List ℕ) (k : Kernel)
    → Sound w k
    → Sound
        (cleared (thread_create ctx trampoline alloc fn arg name bytes priority k).0 w)
        (thread_create ctx trampoline alloc fn arg name bytes priority k).1
unfolding thread_create
thread_create-Sound w ctx trampoline fn arg bytes priority alloc name k s =
    elim (Bool-cases (fn == 0)) [
      | inl null ↦ rw (null, thread_create) s
      | inr given ↦ elim (Option-cases (free_from 0 k.threads)) [
        | inl full ↦ rw (given, full, thread_create) s
        | inr (i, e) ↦
            elim (Option-cases
              (allocate ctx trampoline alloc ((stack_words bytes + stack_pad_words) * 4))) [
                | inl out ↦ rw (given, e, out, thread_create) s
                | inr (base, got) ↦
                    let words = stack_words bytes in
                    rw (given, e, got, thread_create)
                      (fresh-Sound w i (new_stack ctx base words (frame ctx trampoline fn arg)) name
                        priority k e s)
              ]
      ]
    ]
