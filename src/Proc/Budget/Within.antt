-- ===== src/Proc/Budget/Within.antt =====
-- proc.c: a fork that is granted keeps every budget.
use rv.Prelude.{
  ℕ, ◌^◌, ◌≤◌, ◌≡◌, refl, ◌∙◌, inl, inr, Bool, true, false, not, ◌&&◌, ◌||◌, none, List, [], ◌∷◌,
  arith, ltb, leb, ◌==◌, Option-cases, all,
}
use rv.Proc.{Proc, is_exited, current_locked}
use rv.Proc.Budget.{
  Charge, granted, on_serial, over, any_over, take_on, take_on_all, ancestors_of, charge_locked,
}

-- A process that has not ended holds no more than its budgets, which are of 32 bits.
abbrev pub is_within : Proc → Bool
is_within q =
    is_exited q
    || leb q.held q.budget
      && leb q.ext_held q.ext_budget
      && ltb q.budget (2 ^ 32)
      && ltb q.ext_budget (2 ^ 32)

-- No serial stands twice in a line of ancestors.
abbrev pub is_line : List ℕ → Bool
is_line [] = true
is_line (s ∷ ss) = all (λ t. not (s == t)) ss && is_line ss

over-elsewhere :
    (s t bytes ext : ℕ) (ps : List Proc)
    → (s == t) ≡ false
    → over t bytes ext (on_serial s (take_on bytes ext) ps) ≡ over t bytes ext ps
unfolding over on_serial
over-elsewhere s t bytes ext [] h = refl
over-elsewhere s t bytes ext (q ∷ qs) h = ground (arith, over-elsewhere s t bytes ext qs h)

any_over-elsewhere :
    (s : ℕ) (ss : List ℕ) (bytes ext : ℕ) (ps : List Proc)
    → all (λ t. not (s == t)) ss ≡ true
    → any_over ss bytes ext (on_serial s (take_on bytes ext) ps) ≡ any_over ss bytes ext ps
unfolding any_over
any_over-elsewhere s [] bytes ext ps h = refl
any_over-elsewhere s (t ∷ ss) bytes ext ps h =
    ground (arith, over-elsewhere s t bytes ext ps, any_over-elsewhere s ss bytes ext ps)

on_serial-within :
    (s bytes ext : ℕ) (ps : List Proc)
    → over s bytes ext ps ≡ none
    → all is_within ps ≡ true
    → all is_within (on_serial s (take_on bytes ext) ps) ≡ true
unfolding over on_serial
on_serial-within s bytes ext [] o h = refl
on_serial-within s bytes ext (q ∷ qs) o h = ground (arith, on_serial-within s bytes ext qs)

take_on_all-within :
    (ss : List ℕ) (bytes ext : ℕ) (ps : List Proc)
    → is_line ss ≡ true
    → any_over ss bytes ext ps ≡ none
    → all is_within ps ≡ true
    → all is_within (take_on_all ss bytes ext ps) ≡ true
unfolding take_on_all any_over
take_on_all-within [] bytes ext ps l o h = h
take_on_all-within (s ∷ ss) bytes ext ps l o h = elim (Option-cases (over s bytes ext ps)) [
  | inr (w, e) ↦ absurd (ground arith)
  | inl e ↦
      take_on_all-within ss bytes ext (on_serial s (take_on bytes ext) ps) (ground arith)
        (any_over-elsewhere s ss bytes ext ps (ground arith) ∙ rw (e, any_over) at o)
        (on_serial-within s bytes ext ps e h)
]

-- A fork that is granted leaves every process that has not ended within both of its budgets, if each
-- was before, and costs no more than the new process's own. The forking process and its ancestors
-- must have different serials.
pub charge_locked-within :
    (next_serial self bytes budget ext ext_budget next : ℕ) (ps qs : List Proc) (c : Charge)
    → is_line (ancestors_of (current_locked self ps)) ≡ true
    → all is_within ps ≡ true
    → charge_locked next_serial self bytes budget ext ext_budget ps ≡ granted c qs next
    → (all is_within qs ≡ true) × (bytes ≤ budget) × (ext ≤ ext_budget)
unfolding charge_locked
charge_locked-within next_serial self bytes budget ext ext_budget next ps qs c l h e =
    let line = ancestors_of (current_locked self ps) in
    elim (Option-cases (any_over line bytes ext ps)) [
      | inr (w, o) ↦ absurd (ground arith)
      | inl o ↦ let kept = take_on_all-within line bytes ext ps l o h in ground (arith, kept)
    ]
