-- ===== src/Proc/Prune/Kept.antt =====
-- proc.c: what `prune_locked` forgets, and what it leaves.
use rv.Prelude.{
  ℕ, zero, suc, ◌+◌, ◌≤◌, ◌<◌, ◌≡◌, refl, ◌∙◌, ◌⊎◌, inl, inr, true, not, none, some, List, [], ◌∷◌,
  arith, ltb, ◌==◌, Bool-cases, Option-cases, length, all, all-get_elem?,
}
use rv.Proc.{Proc}
use rv.Proc.Prune.{
  proc_history, proc_history_max, survey_from, no_survey, victim_of, forget, prune_loop,
  prune_locked,
}
use rv.Proc.Prune.Search.{
  needed, dead, Distinct, Found, survey_from-exited_count, survey_from-any, survey_from-done,
  survey_from-none,
}

all-forget :
    (a b : ℕ) (ps : List Proc)
    → all (λ q. not (b == q.addr)) ps ≡ true
    → all (λ q. not (b == q.addr)) (forget a ps) ≡ true
unfolding forget
all-forget a b [] h = refl
all-forget a b (p ∷ ps) h = ground (arith, all-forget a b ps)

forget-Distinct : (a : ℕ) (ps : List Proc) → Distinct ps → Distinct (forget a ps)
unfolding forget
forget-Distinct a [] d = d
forget-Distinct a (p ∷ ps) d = ground (arith, forget-Distinct a ps d.1, all-forget a p.addr ps d.0)

forget-Found :
    (v : Proc) (ps : List Proc)
    → Distinct ps
    → Found v ps
    → (needed (forget v.addr ps) ≡ needed ps) × (length (forget v.addr ps) < length ps)
unfolding forget Found
forget-Found v [] d (i, at, f) = absurd (cc)
forget-Found v (p ∷ ps) d (zero, at, f) = ground arith
forget-Found v (p ∷ ps) d (suc i, at, f) =
    let other = all-get_elem? (λ q. not (p.addr == q.addr)) ps i d.0 at in
    ground (arith, forget-Found v ps d.1 (i, at, f))

victim-Found :
    (ps : List Proc) (v : Proc) → victim_of (survey_from ps no_survey ps) ≡ some v → Found v ps
unfolding victim_of
victim-Found ps v h =
    elim (Bool-cases (ltb proc_history_max (survey_from ps no_survey ps).exited_count)) [
      | inl many ↦ elim (survey_from-any ps no_survey ps v (rw many at h)) [
        | inl e ↦ absurd (cc)
        | inr f ↦ f
      ]
      | inr few ↦ elim (Bool-cases (ltb proc_history (survey_from ps no_survey ps).exited_count)) [
        | inl some_dead ↦ elim (survey_from-done ps no_survey ps v (rw (few, some_dead) at h)) [
          | inl e ↦ absurd (cc)
          | inr f ↦ f
        ]
        | inr fewer ↦ absurd (ground arith)
      ]
    ]

no_victim :
    (ps : List Proc)
    → victim_of (survey_from ps no_survey ps) ≡ none
    → (dead ps ≤ proc_history_max) ⊎ (needed ps ≡ ps)
unfolding victim_of
no_victim ps h =
    let count = survey_from-exited_count ps no_survey ps in
    elim (Bool-cases (ltb proc_history_max (survey_from ps no_survey ps).exited_count)) [
      | inl many ↦ inr (survey_from-none ps no_survey ps (rw many at h)).1
      | inr few ↦ inl (ground (arith, count))
    ]

-- Where the rounds are as many as the descriptors, and one more, they do not run out.
prune_loop-needed :
    (k : ℕ) (ps : List Proc)
    → Distinct ps
    → length ps < k
    → (qs : List Proc) × (prune_loop k ps ≡ some qs)
      × (needed qs ≡ needed ps)
      × ((dead qs ≤ proc_history_max) ⊎ (needed qs ≡ qs))
unfolding prune_loop
prune_loop-needed zero ps d lt = absurd (omega arith)
prune_loop-needed (suc k) ps d lt = elim (Option-cases (victim_of (survey_from ps no_survey ps))) [
  | inl e ↦ (ps, rw (e, prune_loop) refl, refl, no_victim ps e)
  | inr (v, e) ↦
      let (kept, shorter) = forget-Found v ps d (victim-Found ps v e) in
      let (qs, done, same, bound) =
        prune_loop-needed k (forget v.addr ps) (forget-Distinct v.addr ps d) (omega arith) in
      (qs, rw (e, prune_loop) done, same ∙ kept, bound)
]

-- Pruning always ends. It forgets no process that is running, held or being collected, and keeps
-- their order; and afterwards no more than PROC_HISTORY_MAX ended processes are remembered, unless
-- every descriptor left is running, held or being collected. The descriptors must lie at different
-- addresses.
pub prune_locked-needed :
    (ps : List Proc)
    → Distinct ps
    → (qs : List Proc) × (prune_locked ps ≡ some qs)
      × (needed qs ≡ needed ps)
      × ((dead qs ≤ proc_history_max) ⊎ (needed qs ≡ qs))
unfolding prune_locked
prune_locked-needed ps d = prune_loop-needed (length ps + 1) ps d (omega arith)
