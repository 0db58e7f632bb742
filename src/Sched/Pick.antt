-- ===== src/Sched/Pick.antt =====
-- sched.c: the choice of `pick_next`.
use rv.Prelude.{
  ℕ, suc, ◌+◌, ◌≡◌, refl, sym, ap, ◌⊎◌, inl, inr, Bool, true, not, ◌&&◌, ◌||◌, none, some, List, [],
  ◌∷◌, arith, ltb, leb, ◌==◌, Bool-cases, get_elem?, all,
}
use rv.Sched.{Thread, is_runnable, is_better, pick_from, pick_next}

-- `best` goes before `th`: a higher priority, or the same and chosen no later.
abbrev pub precedes : Thread → Thread → Bool
precedes best th =
    not (is_runnable th)
    || ltb th.effective_priority best.effective_priority
    || th.effective_priority == best.effective_priority && leb best.last_ran_seq th.last_ran_seq

precedes_trans :
    (a b : Thread) (ths : List Thread)
    → is_runnable b ≡ true
    → is_better a b ≡ true
    → all (precedes b) ths ≡ true
    → all (precedes a) ths ≡ true
precedes_trans a b [] r h k = refl
precedes_trans a b (th ∷ ths) r h k = ground (arith, precedes_trans a b ths r h)

-- The thread `b` stands at slot `k`, counted from `i`.
abbrev Stands : ℕ → List Thread → ℕ → Thread → Type 0
Stands i ths k b = (n : ℕ) × (k ≡ i + n) × (get_elem? ths n ≡ some b)

Stands-later :
    (i k : ℕ) (b th : Thread) (ths : List Thread) → Stands (i + 1) ths k b → Stands i (th ∷ ths) k b
Stands-later i k b th ths (n, e, at) = (suc n, omega arith, at)

-- The search keeps what it has, or goes on to one of the threads that are left; either way the
-- answer precedes them all, and what it had.
pick_from-some :
    (i j : ℕ) (c : Thread) (ths : List Thread)
    → is_runnable c ≡ true
    → (k : ℕ) × (b : Thread) × (pick_from i (some (j, c)) ths ≡ some (k, b))
      × (is_runnable b ≡ true)
      × ((k ≡ j) × (b ≡ c) ⊎ Stands i ths k b)
      × (all (precedes b) (c ∷ ths) ≡ true)
unfolding pick_from
pick_from-some i j c [] r = (j, c, refl, r, inl (refl, refl), ground arith)
pick_from-some i j c (th ∷ ths) r = elim (Bool-cases (is_runnable th && is_better th c)) [
  | inl better ↦
      let (k, b, e, rb, from, p) = pick_from-some (i + 1) i th ths (ground arith) in
      (k, b, rw better e, rb, inr (new k b from), ground (arith, p))
  | inr worse ↦
      let (k, b, e, rb, from, p) = pick_from-some (i + 1) j c ths r in
      (k, b, rw worse e, rb, old k b from, ground (arith, p))
]
  where
    new :
        (k : ℕ) (b : Thread) → (k ≡ i) × (b ≡ th) ⊎ Stands (i + 1) ths k b → Stands i (th ∷ ths) k b
    new k b (inl (e, f)) = (0, omega (arith, e), ap some (sym f))
    new k b (inr s) = Stands-later i k b th ths s

    old :
        (k : ℕ) (b : Thread)
        → (k ≡ j) × (b ≡ c) ⊎ Stands (i + 1) ths k b
        → (k ≡ j) × (b ≡ c) ⊎ Stands i (th ∷ ths) k b
    old k b (inl e) = inl e
    old k b (inr s) = inr (Stands-later i k b th ths s)

-- What the search ends with when it starts with nothing.
pick_from-best :
    (i : ℕ) (ths : List Thread)
    → (pick_from i none ths ≡ none) × (all (λ th. not (is_runnable th)) ths ≡ true)
      ⊎ ((k : ℕ) × (b : Thread) × (pick_from i none ths ≡ some (k, b))
          × Stands i ths k b
          × (is_runnable b ≡ true)
          × (all (precedes b) ths ≡ true))
unfolding pick_from
pick_from-best i [] = inl (refl, refl)
pick_from-best i (th ∷ ths) = elim (Bool-cases (is_runnable th)) [
  | inl r ↦
      let (k, b, e, rb, from, p) = pick_from-some (i + 1) i th ths r in
      inr (k, b, rw r e, first k b from, rb, p)
  | inr idle ↦ elim (pick_from-best (i + 1) ths) [
    | inl (e, none_ready) ↦ inl (rw idle e, ground (arith, none_ready))
    | inr (k, b, e, s, rb, p) ↦
        inr (k, b, rw idle e, Stands-later i k b th ths s, rb, ground (arith, p))
  ]
]
  where
    first :
        (k : ℕ) (b : Thread) → (k ≡ i) × (b ≡ th) ⊎ Stands (i + 1) ths k b → Stands i (th ∷ ths) k b
    first k b (inl (e, f)) = (0, omega (arith, e), ap some (sym f))
    first k b (inr s) = Stands-later i k b th ths s

-- The thread that `pick_next` chooses is runnable, and goes before every runnable thread of the
-- table: it has a higher effective priority, or the same and was chosen no later. It chooses none
-- only if none is runnable.
pub pick_next-best :
    (ths : List Thread)
    → (pick_next ths ≡ none) × (all (λ th. not (is_runnable th)) ths ≡ true)
      ⊎ ((k : ℕ) × (b : Thread) × (pick_next ths ≡ some (k, b))
          × (get_elem? ths k ≡ some b)
          × (is_runnable b ≡ true)
          × (all (precedes b) ths ≡ true))
unfolding pick_next
pick_next-best ths = elim (pick_from-best 0 ths) [
  | inl none_ready ↦ inl none_ready
  | inr (k, b, e, (n, at, there), rb, p) ↦
      let same : n ≡ k = omega (arith, at) in inr (k, b, e, rw same at there, rb, p)
]
