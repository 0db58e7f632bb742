-- ===== src/Proc/Prune/Search.antt =====
-- proc.c: what the loop of `prune_locked` finds.
use rv.Prelude.{
  ℕ, suc, ◌+◌, ◌≡◌, refl, sym, ◌∙◌, ◌⊎◌, inl, inr, Bool, true, false, not, ◌&&◌, ◌||◌, Option, none,
  some, List, [], ◌∷◌, arith, ltb, ◌==◌, if◌then◌else◌, Bool-cases, get_elem?, all,
}
use rv.Proc.{Proc, is_exited}
use rv.Proc.Prune.{Survey, parent_may_wait_locked, older, survey_one, survey_from}

-- A descriptor that has ended and that nobody holds.
abbrev pub is_forgettable : Proc → Bool
is_forgettable p = is_exited p && p.refs == 0 && not p.collecting

-- The descriptors that are running, held or being collected, in order.
abbrev pub needed : List Proc → List Proc
needed [] = []
needed (p ∷ ps) = if is_forgettable p then needed ps else p ∷ needed ps

-- How many have ended.
abbrev pub dead : List Proc → ℕ
dead [] = 0
dead (p ∷ ps) = (if is_exited p then 1 else 0) + dead ps

-- No two descriptors lie at one address.
abbrev pub Distinct : List Proc → Type 0
Distinct [] = Unit {0}
Distinct (p ∷ ps) = (all (λ q. not (p.addr == q.addr)) ps ≡ true) × Distinct ps

unfoldable pub Found : Proc → List Proc → Type 0
Found v ps = (i : ℕ) × (get_elem? ps i ≡ some v) × (is_forgettable v ≡ true)

Found-later : (v p : Proc) (ps : List Proc) → Found v ps → Found v (p ∷ ps)
unfolding Found
Found-later v p ps (i, at, f) = (suc i, at, f)

pub survey_from-exited_count :
    (ps : List Proc) (s : Survey) (rest : List Proc)
    → (survey_from ps s rest).exited_count ≡ s.exited_count + dead rest
unfolding survey_from survey_one
survey_from-exited_count ps s [] = ground arith
survey_from-exited_count ps s (p ∷ rest) =
    ground (arith, survey_from-exited_count ps (survey_one ps p s) rest)

older-some : (p v : Proc) (o : Option Proc) → older p o ≡ some v → (o ≡ some v) ⊎ (some p ≡ some v)
older-some p v none h = inr h
older-some p v (some o) h = elim (Bool-cases (ltb p.ended_seq o.ended_seq)) [
  | inl lt ↦ inr (rw lt at h)
  | inr ge ↦ inl (rw ge at h)
]

Found-here :
    (p v : Proc) (rest : List Proc) → some p ≡ some v → is_forgettable p ≡ true → Found v (p ∷ rest)
unfolding Found
Found-here p v rest e f = (0, e, ground arith)

survey_one-passed :
    (ps : List Proc) (p : Proc) (s : Survey)
    → is_forgettable p ≡ false
    → ((survey_one ps p s).oldest_any ≡ s.oldest_any)
      × ((survey_one ps p s).oldest_done ≡ s.oldest_done)
unfolding survey_one
survey_one-passed ps p s h = ground arith

survey_one-weighed :
    (ps : List Proc) (p : Proc) (s : Survey)
    → is_forgettable p ≡ true
    → ((survey_one ps p s).oldest_any ≡ older p s.oldest_any)
      × (((survey_one ps p s).oldest_done ≡ older p s.oldest_done)
          ⊎ ((survey_one ps p s).oldest_done ≡ s.oldest_done))
unfolding survey_one
survey_one-weighed ps p s h = (
  ground arith,
  elim (Bool-cases (p.waited || not (parent_may_wait_locked p ps))) [
    | inl done ↦ inl (ground arith)
    | inr awaited ↦ inr (ground arith)
  ],
)

survey_one-any :
    (ps : List Proc) (s : Survey) (p v : Proc) (rest : List Proc)
    → (survey_one ps p s).oldest_any ≡ some v
    → (s.oldest_any ≡ some v) ⊎ Found v (p ∷ rest)
survey_one-any ps s p v rest e = elim (Bool-cases (is_forgettable p)) [
  | inr held ↦ inl (sym (survey_one-passed ps p s held).0 ∙ e)
  | inl free ↦ elim (older-some p v s.oldest_any (sym (survey_one-weighed ps p s free).0 ∙ e)) [
    | inl old ↦ inl old
    | inr new ↦ inr (Found-here p v rest new free)
  ]
]

survey_one-done :
    (ps : List Proc) (s : Survey) (p v : Proc) (rest : List Proc)
    → (survey_one ps p s).oldest_done ≡ some v
    → (s.oldest_done ≡ some v) ⊎ Found v (p ∷ rest)
survey_one-done ps s p v rest e = elim (Bool-cases (is_forgettable p)) [
  | inr held ↦ inl (sym (survey_one-passed ps p s held).1 ∙ e)
  | inl free ↦ elim (survey_one-weighed ps p s free).1 [
    | inr same ↦ inl (sym same ∙ e)
    | inl one ↦ elim (older-some p v s.oldest_done (sym one ∙ e)) [
      | inl old ↦ inl old
      | inr new ↦ inr (Found-here p v rest new free)
    ]
  ]
]

pub survey_from-any :
    (ps : List Proc) (s : Survey) (rest : List Proc) (v : Proc)
    → (survey_from ps s rest).oldest_any ≡ some v
    → (s.oldest_any ≡ some v) ⊎ Found v rest
unfolding survey_from
survey_from-any ps s [] v h = inl h
survey_from-any ps s (p ∷ rest) v h = elim (survey_from-any ps (survey_one ps p s) rest v h) [
  | inr f ↦ inr (Found-later v p rest f)
  | inl e ↦ survey_one-any ps s p v rest e
]

pub survey_from-done :
    (ps : List Proc) (s : Survey) (rest : List Proc) (v : Proc)
    → (survey_from ps s rest).oldest_done ≡ some v
    → (s.oldest_done ≡ some v) ⊎ Found v rest
unfolding survey_from
survey_from-done ps s [] v h = inl h
survey_from-done ps s (p ∷ rest) v h = elim (survey_from-done ps (survey_one ps p s) rest v h) [
  | inr f ↦ inr (Found-later v p rest f)
  | inl e ↦ survey_one-done ps s p v rest e
]

pub survey_from-none :
    (ps : List Proc) (s : Survey) (rest : List Proc)
    → (survey_from ps s rest).oldest_any ≡ none
    → (s.oldest_any ≡ none) × (needed rest ≡ rest)
unfolding survey_from survey_one
survey_from-none ps s [] h = (h, refl)
survey_from-none ps s (p ∷ rest) h = ground (arith, survey_from-none ps (survey_one ps p s) rest)
