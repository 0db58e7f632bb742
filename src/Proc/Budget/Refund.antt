-- ===== src/Proc/Budget/Refund.antt =====
-- proc.c: what a refused fork was charged is given back.
use rv.Prelude.{
  ℕ, suc, ◌+◌, ◌*◌, ◌%◌, ◌^◌, ◌≡◌, refl, ap, ◌∙◌, inl, inr, Bool, true, ◌&&◌, List, [], ◌∷◌, arith,
  ltb, ◌==◌, Bool-cases, Option-cases, length, all,
}
use rv.Proc.{Proc, current_locked}
use rv.Proc.Budget.{
  Charge, granted, on_serial, less, give_back, uncharge_locked, any_over, take_on, take_on_all,
  ancestors_of, charge_locked, refund,
}

-- `n` charges of the process do not wrap its accounts.
abbrev pub is_roomy : ℕ → ℕ → ℕ → Proc → Bool
is_roomy n bytes ext q = ltb (q.held + n * bytes) (2 ^ 32) && ltb (q.ext_held + n * ext) (2 ^ 32)

on_serial_comm :
    (s t : ℕ) (f : Proc → Proc) (ps : List Proc)
    → ((q : Proc) → (f q).serial ≡ q.serial)
    → on_serial s f (on_serial t f ps) ≡ on_serial t f (on_serial s f ps)
unfolding on_serial
on_serial_comm s t f [] k = refl
on_serial_comm s t f (q ∷ qs) k = ground (arith, on_serial_comm s t f qs k, k q)

take_on_all_comm :
    (s : ℕ) (ss : List ℕ) (bytes ext : ℕ) (ps : List Proc)
    → take_on_all ss bytes ext (on_serial s (take_on bytes ext) ps)
      ≡ on_serial s (take_on bytes ext) (take_on_all ss bytes ext ps)
unfolding take_on_all
take_on_all_comm s [] bytes ext ps = refl
take_on_all_comm s (t ∷ ss) bytes ext ps =
    ap (take_on_all ss bytes ext) (on_serial_comm t s (take_on bytes ext) ps (λ q. refl))
    ∙ take_on_all_comm s ss bytes ext (on_serial t (take_on bytes ext) ps)

give_back-take_on :
    (s bytes ext : ℕ) (ps : List Proc)
    → all (is_roomy 1 bytes ext) ps ≡ true
    → on_serial s (give_back bytes ext) (on_serial s (take_on bytes ext) ps) ≡ ps
unfolding on_serial
give_back-take_on s bytes ext [] h = refl
give_back-take_on s bytes ext (q ∷ qs) h = elim (Bool-cases (q.serial == s)) [
  | inl here ↦
      let held : less ((q.held + bytes) % 2 ^ 32) bytes ≡ q.held = ground arith in
      let ext_held : less ((q.ext_held + ext) % 2 ^ 32) ext ≡ q.ext_held = ground arith in
      rw (here, on_serial, here, on_serial) (rw (held, ext_held) refl)
  | inr there ↦ ground (arith, give_back-take_on s bytes ext qs)
]

roomy-suc :
    (n s bytes ext : ℕ) (ps : List Proc)
    → all (is_roomy (suc n) bytes ext) ps ≡ true
    → (all (is_roomy n bytes ext) ps ≡ true)
      × (all (is_roomy n bytes ext) (on_serial s (take_on bytes ext) ps) ≡ true)
unfolding on_serial
roomy-suc n s bytes ext [] h = (refl, refl)
roomy-suc n s bytes ext (q ∷ qs) h =
    let held : suc n * bytes ≡ bytes + n * bytes = omega arith in
    let ext_held : suc n * ext ≡ ext + n * ext = omega arith in
    ground (arith, held, ext_held, roomy-suc n s bytes ext qs)

roomy-take_on_all :
    (ss : List ℕ) (bytes ext : ℕ) (ps : List Proc)
    → all (is_roomy (suc (length ss)) bytes ext) ps ≡ true
    → all (is_roomy 1 bytes ext) (take_on_all ss bytes ext ps) ≡ true
unfolding take_on_all
roomy-take_on_all [] bytes ext ps h = h
roomy-take_on_all (s ∷ ss) bytes ext ps h =
    roomy-take_on_all ss bytes ext (on_serial s (take_on bytes ext) ps)
      (roomy-suc (suc (length ss)) s bytes ext ps h).1

uncharge_locked-take_on_all :
    (ss : List ℕ) (bytes ext : ℕ) (ps : List Proc)
    → all (is_roomy (length ss) bytes ext) ps ≡ true
    → uncharge_locked ss bytes ext (take_on_all ss bytes ext ps) ≡ ps
unfolding uncharge_locked take_on_all
uncharge_locked-take_on_all [] bytes ext ps h = refl
uncharge_locked-take_on_all (s ∷ ss) bytes ext ps h =
    ap (λ l. uncharge_locked ss bytes ext (on_serial s (give_back bytes ext) l))
      (take_on_all_comm s ss bytes ext ps)
    ∙ (ap (uncharge_locked ss bytes ext) (
          give_back-take_on s bytes ext (take_on_all ss bytes ext ps)
            (roomy-take_on_all ss bytes ext ps h))
        ∙ uncharge_locked-take_on_all ss bytes ext ps (roomy-suc (length ss) s bytes ext ps h).0)

-- A fork that is refused after it was charged leaves no account changed: giving the charge back
-- restores the table exactly. No account may be so full that a charge for
-- each of the ancestors would wrap it.
pub refund-charge_locked :
    (next_serial self bytes budget ext ext_budget next : ℕ) (ps qs : List Proc) (c : Charge)
    → all (is_roomy (length (ancestors_of (current_locked self ps))) bytes ext) ps ≡ true
    → charge_locked next_serial self bytes budget ext ext_budget ps ≡ granted c qs next
    → refund c qs ≡ ps
unfolding charge_locked refund
refund-charge_locked next_serial self bytes budget ext ext_budget next ps qs c r e =
    let line = ancestors_of (current_locked self ps) in
    elim (Option-cases (any_over line bytes ext ps)) [
      | inr (w, o) ↦ absurd (ground arith)
      | inl o ↦ ground (arith, uncharge_locked-take_on_all line bytes ext ps r)
    ]
