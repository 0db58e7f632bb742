-- ===== src/Sched/Kernel/Linked.antt =====
-- sched.c: the chains of the wait queues and what the threads say they wait on.
use rv.Prelude.{
  ℕ, zero, suc, ◌≡◌, refl, sym, inl, inr, Bool, true, false, not, ◌&&◌, Option, none, some, List,
  [], ◌∷◌, arith, ◌==◌, Bool-cases, get_elem?, mem,
}
use rv.Sched.{Thread}
use rv.Sched.Kernel.{
  Kernel, at_slot, on_thread, waitq_push, without, waitq_remove, blocked_on_of, is_on,
}
use rv.Sched.Kernel.Slots.{at_slot_self, at_slot-other}

-- No slot stands twice in a chain.
abbrev pub distinct : List ℕ → Bool
distinct [] = true
distinct (i ∷ is) = not (mem i is) && distinct is

-- `blocked_on` of the thread in a slot.
abbrev pub waits_on : Kernel → ℕ → Option ℕ
waits_on k i = blocked_on_of (get_elem? k.threads i)

pub record Linked (k : Kernel) : Type 0 where
  pub linked : (q i : ℕ) → mem i (k.queues q) ≡ is_on (waits_on k i) q
  pub once : (q : ℕ) → distinct (k.queues q) ≡ true

mem-without_other : (i j : ℕ) (is : List ℕ) → (i == j) ≡ false → mem j (without i is) ≡ mem j is
unfolding without
mem-without_other i j [] h = refl
mem-without_other i j (n ∷ is) h = ground (arith, mem-without_other i j is h)

mem-without_self : (i : ℕ) (is : List ℕ) → distinct is ≡ true → mem i (without i is) ≡ false
unfolding without
mem-without_self i [] d = refl
mem-without_self i (n ∷ is) d = ground (arith, mem-without_self i is)

distinct-without : (i : ℕ) (is : List ℕ) → distinct is ≡ true → distinct (without i is) ≡ true
unfolding without
distinct-without i [] d = refl
distinct-without i (n ∷ is) d = ground (arith, distinct-without i is, mem-without_other i n is)

mem-without :
    (i j : ℕ) (is : List ℕ) → distinct is ≡ true → mem j (without i is) ≡ not (i == j) && mem j is
mem-without i j is d = elim (Bool-cases (i == j)) [
  | inl same ↦ let here : i ≡ j = ground arith in rw (same, sym here) (mem-without_self i is d)
  | inr other ↦ rw other (mem-without_other i j is other)
]

-- A write that leaves `blocked_on` alone.
blocked_on-at_slot :
    (i j : ℕ) (f : Thread → Thread) (ths : List Thread)
    → ((th : Thread) → (f th).blocked_on ≡ th.blocked_on)
    → blocked_on_of (get_elem? (at_slot i f ths) j) ≡ blocked_on_of (get_elem? ths j)
unfolding at_slot
blocked_on-at_slot i j f [] h = refl
blocked_on-at_slot zero zero f (th ∷ ths) h = h th
blocked_on-at_slot zero (suc j) f (th ∷ ths) h = refl
blocked_on-at_slot (suc i) zero f (th ∷ ths) h = refl
blocked_on-at_slot (suc i) (suc j) f (th ∷ ths) h = blocked_on-at_slot i j f ths h

-- Two kernels with the same chains, whose threads wait on the same queues.
pub record SameQueues (a b : Kernel) : Type 0 where
  pub chains : (q : ℕ) → a.queues q ≡ b.queues q
  pub waits : (i : ℕ) → waits_on a i ≡ waits_on b i

pub SameQueues-Linked : (a b : Kernel) → SameQueues a b → Linked b → Linked a
SameQueues-Linked a b s l = record {
  linked = λ q i. rw (s.chains q, s.waits i) (l.linked q i);
  once = λ q. rw (s.chains q) (l.once q);
}

pub on_thread-SameQueues :
    (i : ℕ) (f : Thread → Thread) (k : Kernel)
    → ((th : Thread) → (f th).blocked_on ≡ th.blocked_on)
    → SameQueues (on_thread i f k) k
on_thread-SameQueues i f k h = record {
  chains = λ q. refl;
  waits = λ j. blocked_on-at_slot i j f k.threads h;
}

-- A thread leaves the chain that it is in.
module _ (q i : ℕ) (f : Thread → Thread) (th : Thread) (k : Kernel)
    (clears : (f th).blocked_on ≡ none) (at : get_elem? k.threads i ≡ some th)
    (on : th.blocked_on ≡ some q) (l : Linked k) where
  remove-linked :
      (r j : ℕ) → mem j ((waitq_remove q i k).queues r) ≡ is_on (waits_on (on_thread i f k) j) r
  remove-linked r j = elim (Bool-cases (i == j)) [
    | inl self ↦ ground (
      arith,
      at_slot_self i f k.threads th at,
      mem-without i j (k.queues q) (l.once q),
      l.linked r i,
    )
    | inr other ↦ ground (
      arith,
      at_slot-other i j f k.threads other,
      mem-without i j (k.queues q) (l.once q),
      l.linked r j,
    )
  ]

  pub remove-Linked : Linked (on_thread i f (waitq_remove q i k))
  remove-Linked = record {
    linked = remove-linked;
    once = λ r. ground (arith, distinct-without i (k.queues q) (l.once q), l.once r);
  }

-- A thread that waits on nothing joins a chain.
module _ (q i : ℕ) (f : Thread → Thread) (th : Thread) (k : Kernel)
    (waits : (f th).blocked_on ≡ some q) (at : get_elem? k.threads i ≡ some th)
    (on : th.blocked_on ≡ none) (l : Linked k) where
  push-linked :
      (r j : ℕ)
      → mem j ((waitq_push q i (on_thread i f k)).queues r) ≡ is_on (waits_on (on_thread i f k) j) r
  push-linked r j = elim (Bool-cases (i == j)) [
    | inl self ↦ ground (arith, at_slot_self i f k.threads th at, l.linked r i)
    | inr other ↦ ground (arith, at_slot-other i j f k.threads other, l.linked r j)
  ]

  pub push-Linked : Linked (waitq_push q i (on_thread i f k))
  push-Linked = record { linked = push-linked; once = λ r. ground (arith, l.once r, l.linked q i) }
