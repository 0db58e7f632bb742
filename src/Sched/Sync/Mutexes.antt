-- ===== src/Sched/Sync/Mutexes.antt =====
-- sched.c: who holds a mutex.
use rv.Prelude.{
  ℕ, ◌+◌, ◌-◌, ◌%◌, ◌^◌, ◌<◌, ◌≡◌, refl, ◌⊎◌, inl, inr, true, false, none, some, [], arith, ltb,
  ◌==◌, if◌then◌else◌, Bool-cases, Option-cases,
}
use rv.Sched.Kernel.{Kernel}
use rv.Sched.Sync.{
  Mutex, returns, raised, lowered, sem_take, sem_give, mutex_init, owns, new_owner, put_sem,
  mutex_lock, mutex_unlock,
}

abbrev pub bump : ℕ → (ℕ → ℕ) → ℕ → ℕ
bump i held j = if i == j then held j + 1 else held j

abbrev pub drop_one : ℕ → (ℕ → ℕ) → ℕ → ℕ
drop_one i held j = if i == j then held j - 1 else held j

-- The calls of threads that end, a lock's at its last look; `held` has how often each thread has
-- locked the mutex and not yet unlocked it. Only such a thread unlocks.
pub data Uses : Mutex → (ℕ → ℕ) → Type 0 where
  start : (q : ℕ) → Uses (mutex_init q) (λ i. 0)
  lock :
      (i timeout_ms : ℕ) (m m' : Mutex) (held : ℕ → ℕ) (k k' : Kernel)
      → mutex_lock timeout_ms (some i) m k [] ≡ returns true m' k'
      → held i + 1 < 2 ^ 32
      → Uses m held
      → Uses m' (bump i held)
  unlock :
      (i : ℕ) (m : Mutex) (held : ℕ → ℕ) (k : Kernel)
      → 0 < held i
      → Uses m held
      → Uses (mutex_unlock m k).0 (drop_one i held)

-- Without an owner nobody has locked it; with one, nobody else has.
pub record IsSole (m : Mutex) (held : ℕ → ℕ) : Type 0 where
  pub max_one : m.sem.max ≡ 1
  pub free : m.owner ≡ none → (m.depth ≡ 0) × (m.sem.count ≡ 1)
  pub nobody : (j : ℕ) → m.owner ≡ none → held j ≡ 0
  pub owned : (i : ℕ) → m.owner ≡ some i → (m.depth ≡ held i) × (0 < m.depth) × (m.sem.count ≡ 0)
  pub others : (i j : ℕ) → m.owner ≡ some i → (i == j) ≡ false → held j ≡ 0

-- A thread that has locked it is the owner.
holder_owns : (i : ℕ) (m : Mutex) (held : ℕ → ℕ) → 0 < held i → IsSole m held → m.owner ≡ some i
holder_owns i m held has v = elim (Option-cases m.owner) [
  | inl unowned ↦ absurd (omega (arith, v.nobody i unowned))
  | inr (n, e) ↦ elim (Bool-cases (n == i)) [
    | inl same ↦ ground (arith, e)
    | inr apart ↦ absurd (omega (arith, v.others n i e apart))
  ]
]

lock-look :
    (i timeout_ms : ℕ) (m m' : Mutex) (k k' : Kernel)
    → mutex_lock timeout_ms (some i) m k [] ≡ returns true m' k'
    → (m.owner ≡ some i) × (m' ≡ record m { depth = (m.depth + 1) % 2 ^ 32 })
      ⊎ (0 < m.sem.count) × (m' ≡ new_owner (some i) (put_sem (lowered m.sem) m))
unfolding mutex_lock sem_take
lock-look i timeout_ms m m' k k' e = elim (Bool-cases (owns m.owner (some i))) [
  | inl mine ↦ inl (ground (arith, mine), ground (arith, mine))
  | inr other ↦ inr (ground (arith, other), ground (arith, other))
]

-- A thread locks it again.
again_IsSole :
    (i : ℕ) (m : Mutex) (held : ℕ → ℕ)
    → m.owner ≡ some i
    → held i + 1 < 2 ^ 32
    → IsSole m held
    → IsSole (record m { depth = (m.depth + 1) % 2 ^ 32 }) (bump i held)
again_IsSole i m held mine small v = record {
  max_one = v.max_one;
  free = λ e. absurd (ground (arith, mine, e));
  nobody = λ j e. absurd (ground (arith, mine, e));
  owned = λ j e. ground (arith, v.owned j e, mine, e);
  others = λ n j e apart. ground (arith, v.others n j e apart, mine, e);
}

-- A thread gets it.
first_IsSole :
    (i : ℕ) (m : Mutex) (held : ℕ → ℕ)
    → 0 < m.sem.count
    → IsSole m held
    → IsSole (new_owner (some i) (put_sem (lowered m.sem) m)) (bump i held)
first_IsSole i m held free v =
    let unowned : m.owner ≡ none = elim (Option-cases m.owner) [
      | inl e ↦ e
      | inr (n, e) ↦ absurd (ground (arith, v.owned n e))
    ] in
    record {
      max_one = v.max_one;
      free = λ e. absurd (ground (arith, e));
      nobody = λ j e. absurd (ground (arith, e));
      owned = λ j e. ground (arith, v.nobody i unowned, v.free unowned, e);
      others = λ n j e apart. ground (arith, v.nobody j unowned, e);
    }

unlock-nested :
    (m : Mutex) (k : Kernel)
    → 0 < m.depth
    → ltb 0 (m.depth - 1) ≡ true
    → (mutex_unlock m k).0 ≡ record m { depth = m.depth - 1 }
unfolding mutex_unlock
unlock-nested m k pos more = ground arith

unlock-last :
    (m : Mutex) (k : Kernel)
    → 0 < m.depth
    → ltb 0 (m.depth - 1) ≡ false
    → m.sem.max ≡ 1
    → m.sem.count ≡ 0
    → (mutex_unlock m k).0 ≡ record m { sem = raised m.sem; owner = none; depth = 0 }
unfolding mutex_unlock sem_give
unlock-last m k pos last one none_left = ground arith

unlock_IsSole :
    (i : ℕ) (m : Mutex) (held : ℕ → ℕ) (k : Kernel)
    → 0 < held i
    → IsSole m held
    → IsSole (mutex_unlock m k).0 (drop_one i held)
unlock_IsSole i m held k has v =
    let mine : m.owner ≡ some i = holder_owns i m held has v in
    let (deep, pos, none_left) = v.owned i mine in
    elim (Bool-cases (ltb 0 (m.depth - 1))) [
      | inl more ↦ rw (unlock-nested m k pos more) (record {
        max_one = v.max_one;
        free = λ e. absurd (ground (arith, mine, e));
        nobody = λ j e. absurd (ground (arith, mine, e));
        owned = λ j e. ground (arith, v.owned j e, mine, e);
        others = λ n j e apart. ground (arith, v.others n j e apart, mine, e);
      })
      | inr last ↦ rw (unlock-last m k pos last v.max_one none_left) (record {
        max_one = v.max_one;
        free = λ e. ground (arith, none_left);
        nobody = λ j e. ground (arith, deep, v.others i j mine);
        owned = λ j e. absurd (cc);
        others = λ n j e apart. absurd (cc);
      })
    ]

Uses-IsSole : (m : Mutex) (held : ℕ → ℕ) → Uses m held → IsSole m held
Uses-IsSole _ _ (start q) = record {
  max_one = refl;
  free = λ e. (refl, refl);
  nobody = λ j e. refl;
  owned = λ i e. absurd (cc);
  others = λ i j e apart. refl;
}
Uses-IsSole _ _ (lock i timeout_ms m m' held k k' e small u) =
    let v = Uses-IsSole m held u in
    elim (lock-look i timeout_ms m m' k k' e) [
      | inl (mine, same) ↦ rw same (again_IsSole i m held mine small v)
      | inr (free, same) ↦ rw same (first_IsSole i m held free v)
    ]
Uses-IsSole _ _ (unlock i m held k has u) = unlock_IsSole i m held k has (Uses-IsSole m held u)

-- No two threads hold a mutex at once, and its depth is how often the one that holds it has locked
-- it, less its unlocks: however the calls are ordered, as long as a thread unlocks only what it holds
-- and no depth reaches 2 ^ 32.
pub Uses-exclusive :
    (m : Mutex) (held : ℕ → ℕ) (i j : ℕ)
    → Uses m held
    → 0 < held i
    → 0 < held j
    → (i ≡ j) × (m.owner ≡ some i) × (m.depth ≡ held i) × (m.sem.count ≡ 0)
Uses-exclusive m held i j u a b =
    let v = Uses-IsSole m held u in
    let mine : m.owner ≡ some i = holder_owns i m held a v in
    let (deep, pos, none_left) = v.owned i mine in
    (ground (arith, mine, holder_owns j m held b v), mine, deep, none_left)
