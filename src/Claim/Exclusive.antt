-- ===== src/Claim/Exclusive.antt =====
-- claim.c: what an exclusive reservation guarantees, and where an upgrade does not check.
use rv.Prelude.{
  ℕ, ◌≡◌, refl, inl, inr, Bool, true, false, not, ◌||◌, Option, none, some, List, [], ◌∷◌, arith,
  ◌==◌, str_eq, str_eq_iff, Option-cases, get_elem?, all,
}
use rv.Claim.{
  Claim, ok, busy, scan, join, new_claim, take_locked, find_reserved, reserve_mark, make_exclusive,
  mark_taken, reserve_locked,
}
use rv.Claim.Invariant.{Valid, agrees, Consistent, admits, scan-admits, all-modify, reserved_alone}
use rv.Claim.Take.{Scan-cases}
use rv.Claim.Refusal.{Blocks, take_locked_blocked}

-- Nobody but `owner` has a record for `res`.
abbrev pub own_or_other : List ℕ → ℕ → Claim → Bool
own_or_other res owner c = not (str_eq c.name res) || c.owner == owner

reserved_elsewhere :
    (res : List ℕ) (owner a : ℕ) (c : Claim) (cs : List Claim)
    → all (agrees c) cs ≡ true
    → all reserved_alone cs ≡ true
    → find_reserved res owner cs ≡ some a
    → str_eq c.name res ≡ false
unfolding find_reserved
reserved_elsewhere res owner a c [] h alone e = absurd (cc)
reserved_elsewhere res owner a c (d ∷ cs) h alone e = ground (
  arith,
  reserved_elsewhere res owner a c cs,
  str_eq_iff c.name res,
  str_eq_iff d.name res,
  str_eq_iff c.name d.name,
)

not_shared :
    (res : List ℕ) (owner : ℕ) (c : Claim) (cs : List Claim)
    → str_eq c.name res ≡ true
    → c.exclusive ≡ true
    → all (agrees c) cs ≡ true
    → all (own_or_other res owner) cs ≡ true
not_shared res owner c [] n x h = refl
not_shared res owner c (d ∷ cs) n x h = ground (
  arith,
  not_shared res owner c cs,
  str_eq_iff c.name res,
  str_eq_iff d.name res,
  str_eq_iff c.name d.name,
)

reserved_alone-own :
    (res : List ℕ) (owner a : ℕ) (cs : List Claim)
    → Consistent cs
    → all reserved_alone cs ≡ true
    → find_reserved res owner cs ≡ some a
    → all (own_or_other res owner) cs ≡ true
unfolding find_reserved
reserved_alone-own res owner a [] v alone e = refl
reserved_alone-own res owner a (c ∷ cs) v alone e = ground (
  arith,
  reserved_alone-own res owner a cs v.2,
  reserved_elsewhere res owner a c cs,
  not_shared res owner c cs,
)

admits-own :
    (res : List ℕ) (owner : ℕ) (cs : List Claim)
    → all (admits res owner true) cs ≡ true
    → all (own_or_other res owner) cs ≡ true
admits-own res owner [] h = refl
admits-own res owner (c ∷ cs) h = ground (arith, admits-own res owner cs)

join-own :
    (res : List ℕ) (owner : ℕ) (exclusive : Bool) (c : Claim)
    → own_or_other res owner c ≡ true
    → own_or_other res owner (join exclusive c) ≡ true
unfolding join
join-own res owner exclusive c h = h

take_locked-own :
    (res : List ℕ) (owner : ℕ) (mem : Option ℕ) (cs : List Claim)
    → (take_locked res owner true mem cs).0 ≡ ok
    → all (own_or_other res owner) (take_locked res owner true mem cs).2 ≡ true
unfolding take_locked new_claim
take_locked-own res owner none cs h = elim (Scan-cases (scan res owner true none cs)) [
  | inl (by, e) ↦ ground arith
  | inr (inl (x, e)) ↦
      rw (e, take_locked)
        (all-modify (own_or_other res owner) (join true) (join-own res owner true) x cs
          (admits-own res owner cs (scan-admits res owner true none (some x) cs e)))
  | inr (inr e) ↦ ground arith
]
take_locked-own res owner (some b) cs h = elim (Scan-cases (scan res owner true none cs)) [
  | inl (by, e) ↦ ground arith
  | inr (inl (x, e)) ↦
      rw (e, take_locked)
        (all-modify (own_or_other res owner) (join true) (join-own res owner true) x cs
          (admits-own res owner cs (scan-admits res owner true none (some x) cs e)))
  | inr (inr e) ↦
      ground (arith, admits-own res owner cs (scan-admits res owner true none none cs e))
]

mark_taken-own :
    (res : List ℕ) (owner : ℕ) (mem : Option ℕ) (cs : List Claim)
    → (mark_taken (take_locked res owner true mem cs)).0 ≡ ok
    → all (own_or_other res owner) (mark_taken (take_locked res owner true mem cs)).1 ≡ true
unfolding mark_taken
mark_taken-own res owner mem cs h = elim (Option-cases (take_locked res owner true mem cs).1) [
  | inl e ↦ rw (e, mark_taken) (take_locked-own res owner mem cs (ground arith))
  | inr (a, e) ↦
      rw (e, mark_taken)
        (all-modify (own_or_other res owner) reserve_mark (λ c p. p) a _
          (take_locked-own res owner mem cs (ground arith)))
]

make_exclusive-own :
    (res : List ℕ) (owner : ℕ) (c : Claim)
    → own_or_other res owner c ≡ true
    → own_or_other res owner (make_exclusive true c) ≡ true
unfolding make_exclusive
make_exclusive-own res owner c h = h

-- When an exclusive reservation is granted, no other owner has a record for the resource: what the
-- manifest declared is the program's alone. The list must be well formed.
pub reserve_locked_alone :
    (res : List ℕ) (owner : ℕ) (mem : Option ℕ) (cs : List Claim)
    → Valid cs
    → (reserve_locked res owner true mem cs).0 ≡ ok
    → all (own_or_other res owner) (reserve_locked res owner true mem cs).1 ≡ true
unfolding reserve_locked
reserve_locked_alone res owner mem cs v h = elim (Option-cases (find_reserved res owner cs)) [
  | inl e ↦ rw (e, reserve_locked) (mark_taken-own res owner mem cs (ground arith))
  | inr (a, e) ↦
      rw (e, reserve_locked)
        (all-modify (own_or_other res owner) (make_exclusive true) (make_exclusive-own res owner) a
          cs (reserved_alone-own res owner a cs v.consistent v.alone e))
]

-- The upgrade of a reservation does not look at the other records. Wherever the owner holds a
-- reservation and another owner's record on the resource blocks it, asking for it alone is
-- answered with success, although `take_locked` says that the resource is busy.
pub reserve_locked_unchecked :
    (res : List ℕ) (owner a : ℕ) (mem : Option ℕ) (i : ℕ) (c : Claim) (cs : List Claim)
    → find_reserved res owner cs ≡ some a
    → get_elem? cs i ≡ some c
    → Blocks res owner true c
    → ((reserve_locked res owner true mem cs).0 ≡ ok)
      × ((by : ℕ) × (take_locked res owner true mem cs ≡ (busy by, none, cs)))
unfolding reserve_locked
reserve_locked_unchecked res owner a mem i c cs e at b =
    (rw (e, reserve_locked), take_locked_blocked res owner true mem i c cs at b)
