-- ===== src/Sched/Kernel/Wake.antt =====
-- sched.c: whom `waitq_pop_best` wakes.
use rv.Prelude.{
  ℕ, ◌≤◌, ◌<◌, ◌≡◌, refl, ap, ◌∙◌, ◌⊎◌, inl, inr, Bool, true, none, some, List, [], ◌∷◌, ◌++◌,
  arith, ltb, leb, ◌==◌, Bool-cases, get_elem?, all, mem,
}
use rv.Sched.{Thread, higher}
use rv.Sched.Kernel.{
  Kernel, on_thread, set_chain, waitq_push, without, waitq_remove, priority_of, best_from, woken,
  waitq_pop_best,
}

-- The priority of the thread in a slot is below `p`, or at most `p`.
abbrev pub is_below : List Thread → ℕ → ℕ → Bool
is_below ths p i = ltb (priority_of (get_elem? ths i)) p

abbrev pub is_up_to : List Thread → ℕ → ℕ → Bool
is_up_to ths p i = leb (priority_of (get_elem? ths i)) p

-- The waiter `i` as it stands in a chain: those before it have lower priorities, those after it none
-- that is higher.
pub record Best (ths : List Thread) (chain : List ℕ) (i p : ℕ) : Type 0 where
  pub before : List ℕ
  pub after : List ℕ
  pub whole : chain ≡ before ++ i ∷ after
  pub priority : priority_of (get_elem? ths i) ≡ p
  pub lower : all (is_below ths p) before ≡ true
  pub no_higher : all (is_up_to ths p) after ≡ true

all-below :
    (ths : List Thread) (p r : ℕ) (is : List ℕ)
    → p ≤ r
    → all (is_below ths p) is ≡ true
    → all (is_below ths r) is ≡ true
all-below ths p r [] le h = refl
all-below ths p r (i ∷ is) le h = ground (arith, all-below ths p r is le)

best_from-some :
    (ths : List Thread) (j p : ℕ) (is : List ℕ)
    → (best_from ths (some (j, p)) is ≡ some (j, p)) × (all (is_up_to ths p) is ≡ true)
      ⊎ ((i : ℕ) × (r : ℕ) × (best_from ths (some (j, p)) is ≡ some (i, r))
          × (p < r)
          × Best ths is i r)
unfolding best_from
best_from-some ths j p [] = inl (refl, refl)
best_from-some ths j p (i ∷ is) =
    let r = priority_of (get_elem? ths i) in
    elim (Bool-cases (ltb p r)) [
      | inl higher ↦ elim (best_from-some ths i r is) [
        | inl (e, low) ↦ inr (
          i,
          r,
          rw higher e,
          ground arith,
          record {
            before = [];
            after = is;
            whole = refl;
            priority = refl;
            lower = refl;
            no_higher = low;
          },
        )
        | inr (n, s, e, lt, b) ↦ inr (
          n,
          s,
          rw higher e,
          ground arith,
          record {
            before = i ∷ b.before;
            after = b.after;
            whole = ap (◌∷◌ i) b.whole;
            priority = b.priority;
            lower = ground (arith, b.lower);
            no_higher = b.no_higher;
          },
        )
      ]
      | inr not_higher ↦ elim (best_from-some ths j p is) [
        | inl (e, low) ↦ inl (rw not_higher e, ground (arith, low))
        | inr (n, s, e, lt, b) ↦ inr (
          n,
          s,
          rw not_higher e,
          lt,
          record {
            before = i ∷ b.before;
            after = b.after;
            whole = ap (◌∷◌ i) b.whole;
            priority = b.priority;
            lower = ground (arith, b.lower);
            no_higher = b.no_higher;
          },
        )
      ]
    ]

pub best_from-Best :
    (ths : List Thread) (i : ℕ) (is : List ℕ)
    → (n : ℕ) × (p : ℕ) × (best_from ths none (i ∷ is) ≡ some (n, p)) × Best ths (i ∷ is) n p
unfolding best_from
best_from-Best ths i is =
    let r = priority_of (get_elem? ths i) in
    elim (best_from-some ths i r is) [
      | inl (e, low) ↦ (
        i,
        r,
        e,
        record {
          before = [];
          after = is;
          whole = refl;
          priority = refl;
          lower = refl;
          no_higher = low;
        },
      )
      | inr (n, s, e, lt, b) ↦ (
        n,
        s,
        e,
        record {
          before = i ∷ b.before;
          after = b.after;
          whole = ap (◌∷◌ i) b.whole;
          priority = b.priority;
          lower = ground (arith, b.lower);
          no_higher = b.no_higher;
        },
      )
    ]

without-before :
    (ths : List Thread) (i p : ℕ) (before after : List ℕ)
    → priority_of (get_elem? ths i) ≡ p
    → all (is_below ths p) before ≡ true
    → without i (before ++ i ∷ after) ≡ before ++ after
unfolding without
without-before ths i p [] after e h = ground arith
without-before ths i p (j ∷ js) after e h = elim (Bool-cases (j == i)) [
  | inl same ↦
      let here : j ≡ i = ground arith in
      let equal : priority_of (get_elem? ths j) ≡ p =
        ap (λ n. priority_of (get_elem? ths n)) here ∙ e in
      absurd (ground (arith, equal))
  | inr other ↦ ground (arith, without-before ths i p js after e)
]

-- A give wakes a waiter if there is one. It is the first in the chain of those with the highest
-- priority; it alone leaves the chain, the rest staying in order, and it is ready to run and waits on
-- nothing.
pub waitq_pop_best-wakes :
    (q i : ℕ) (is : List ℕ) (k : Kernel)
    → k.queues q ≡ i ∷ is
    → (n : ℕ) × (p : ℕ) × (b : Best k.threads (i ∷ is) n p) × (waitq_pop_best q k
        ≡ (some n, on_thread n woken (set_chain q (b.before ++ b.after) k)))
unfolding waitq_pop_best
waitq_pop_best-wakes q i is k h =
    let (n, p, e, b) = best_from-Best k.threads i is in
    let found : best_from k.threads none (k.queues q) ≡ some (n, p) =
      ap (best_from k.threads none) h ∙ e in
    let left : without n (k.queues q) ≡ b.before ++ b.after =
      ap (without n) (h ∙ b.whole)
      ∙ without-before k.threads n p b.before b.after b.priority b.lower in
    (n, p, b, ground (arith, found, left))

-- An element between two lists stands in the whole.
mem-middle : (n : ℕ) (before after : List ℕ) → mem n (before ++ n ∷ after) ≡ true
mem-middle n [] after = ground arith
mem-middle n (j ∷ js) after = ground (arith, mem-middle n js after)

-- A give at an empty queue changes nothing.
pub waitq_pop_best-none : (q : ℕ) (k : Kernel) → k.queues q ≡ [] → waitq_pop_best q k ≡ (none, k)
unfolding waitq_pop_best best_from
waitq_pop_best-none q k h = ground (arith, h)

pub waitq_pop_best-removes :
    (q i : ℕ) (is : List ℕ) (k : Kernel)
    → k.queues q ≡ i ∷ is
    → (n : ℕ) × (mem n (k.queues q) ≡ true)
      × (waitq_pop_best q k ≡ (some n, on_thread n woken (waitq_remove q n k)))
unfolding waitq_pop_best
waitq_pop_best-removes q i is k h =
    let (n, p, e, b) = best_from-Best k.threads i is in
    let found : best_from k.threads none (k.queues q) ≡ some (n, p) =
      ap (best_from k.threads none) h ∙ e in
    let m : mem n (k.queues q) ≡ true = ap (mem n) (h ∙ b.whole) ∙ mem-middle n b.before b.after in
    (n, m, ground (arith, found))

-- None of those in the chain has a priority above `p`, the thread's in slot `i`.
best_from-first :
    (ths : List Thread) (i p : ℕ) (is : List ℕ)
    → all (is_up_to ths p) is ≡ true
    → best_from ths (some (i, p)) is ≡ some (i, p)
unfolding best_from
best_from-first ths i p [] h = refl
best_from-first ths i p (j ∷ is) h = ground (arith, best_from-first ths i p is)

-- Of waiters with one priority the last to come is the first to be woken: where none that waits has a
-- higher priority than the thread that joins the queue, the next give wakes that thread.
pub waitq_push-newest :
    (q i : ℕ) (k : Kernel)
    → all (is_up_to k.threads (priority_of (get_elem? k.threads i))) (k.queues q) ≡ true
    → (waitq_pop_best q (waitq_push q i k)).0 ≡ some i
unfolding waitq_pop_best best_from
waitq_push-newest q i k h =
    let p = priority_of (get_elem? k.threads i) in
    let first : best_from k.threads none (i ∷ k.queues q) ≡ some (i, p) =
      best_from-first k.threads i p (k.queues q) h in
    ground (arith, first)
