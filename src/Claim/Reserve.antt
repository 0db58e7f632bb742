-- ===== src/Claim/Reserve.antt =====
-- claim.c: `rv9_claim_reserve`, by which a manifest's exclusive devices are claimed at fork.
use rv.Prelude.{
  ℕ, ◌<◌, ◌≡◌, refl, ap, inl, inr, Bool, true, Option, none, some, List, [], ◌∷◌, arith,
  Option-cases, length, all,
}
use rv.Claim.{
  Claim, ok, name_max, modify, scan, join, new_claim, take_locked, find_reserved, reserve_mark,
  make_exclusive, mark_taken, reserve_locked,
}
use rv.Claim.Invariant.{
  Valid, Consistent, holds_at, not-holds_at, Consistent-modify_same, reserved_alone, has_room,
  is_fresh,
}
use rv.Claim.Take.{Scan-cases, take_locked-Consistent}

find_reserved-holds_at :
    (res : List ℕ) (owner a : ℕ) (cs : List Claim)
    → Consistent cs
    → find_reserved res owner cs ≡ some a
    → holds_at a res owner cs ≡ true
unfolding find_reserved
find_reserved-holds_at res owner a [] v h = absurd (cc)
find_reserved-holds_at res owner a (c ∷ cs) v h =
    ground (arith, find_reserved-holds_at res owner a cs v.2, not-holds_at a res owner c cs)

-- A reservation that is exclusive already is not changed by asking again.
pub reserve_again-modify :
    (res : List ℕ) (owner a : ℕ) (exclusive : Bool) (cs : List Claim)
    → Consistent cs
    → all reserved_alone cs ≡ true
    → find_reserved res owner cs ≡ some a
    → modify a (make_exclusive exclusive) cs ≡ cs
unfolding find_reserved modify make_exclusive
reserve_again-modify res owner a exclusive [] v alone h = refl
reserve_again-modify res owner a exclusive (c ∷ cs) v alone h = ground (
  arith,
  reserve_again-modify res owner a exclusive cs v.2,
  find_reserved-holds_at res owner a cs v.2,
  not-holds_at a res owner c cs,
)

mark-join_alone :
    (a : ℕ) (cs : List Claim)
    → all reserved_alone cs ≡ true
    → all reserved_alone (modify a reserve_mark (modify a (join true) cs)) ≡ true
unfolding modify join
mark-join_alone a [] h = refl
mark-join_alone a (c ∷ cs) h = ground (arith, mark-join_alone a cs)

reserve_mark-alone :
    (res : List ℕ) (owner : ℕ) (mem : Option ℕ) (a : ℕ) (cs : List Claim)
    → all reserved_alone cs ≡ true
    → (take_locked res owner true mem cs).1 ≡ some a
    → all reserved_alone (modify a reserve_mark (take_locked res owner true mem cs).2) ≡ true
unfolding take_locked new_claim modify join
reserve_mark-alone res owner none a cs alone h = elim (Scan-cases (scan res owner true none cs)) [
  | inl (by, e) ↦ ground arith
  | inr (inl (x, e)) ↦ ground (arith, mark-join_alone a cs alone)
  | inr (inr e) ↦ ground arith
]
reserve_mark-alone res owner (some b) a cs alone h =
    elim (Scan-cases (scan res owner true none cs)) [
      | inl (by, e) ↦ ground arith
      | inr (inl (x, e)) ↦ ground (arith, mark-join_alone a cs alone)
      | inr (inr e) ↦ ground arith
    ]

pub take_locked_kept :
    (res : List ℕ) (owner : ℕ) (exclusive : Bool) (mem : Option ℕ) (cs : List Claim)
    → (take_locked res owner exclusive mem cs).1 ≡ none
    → (take_locked res owner exclusive mem cs).2 ≡ cs
unfolding take_locked
take_locked_kept res owner exclusive none cs h = ground arith
take_locked_kept res owner exclusive (some b) cs h = ground arith

reserve_mark-Consistent :
    (a : ℕ) (cs : List Claim) → Consistent cs → Consistent (modify a reserve_mark cs)
reserve_mark-Consistent =
    Consistent-modify_same reserve_mark (λ c. refl) (λ c. refl) (λ c. refl) (λ c. refl) (λ c. refl)

mark_taken-Valid :
    (res : List ℕ) (owner : ℕ) (mem : Option ℕ) (cs : List Claim)
    → length res < name_max
    → is_fresh mem cs ≡ true
    → all has_room cs ≡ true
    → Valid cs
    → Valid (mark_taken (take_locked res owner true mem cs)).1
unfolding mark_taken
mark_taken-Valid res owner mem cs short fresh room v =
    elim (Option-cases (take_locked res owner true mem cs).1) [
      | inl e ↦ rw (e, mark_taken) (rw (take_locked_kept res owner true mem cs e) v)
      | inr (a, e) ↦
          rw (e, mark_taken)
            (record {
              consistent =
                  reserve_mark-Consistent a _
                    (take_locked-Consistent res owner true mem cs short fresh room v.consistent);
              alone = reserve_mark-alone res owner mem a cs v.alone e;
            })
    ]

-- Reserving a device alone, which is all that the loader asks for, keeps the list well formed.
-- The name must fit its buffer, the memory be new, and no count be at its limit.
pub reserve_locked-Valid :
    (res : List ℕ) (owner : ℕ) (mem : Option ℕ) (cs : List Claim)
    → length res < name_max
    → is_fresh mem cs ≡ true
    → all has_room cs ≡ true
    → Valid cs
    → Valid (reserve_locked res owner true mem cs).1
unfolding reserve_locked
reserve_locked-Valid res owner mem cs short fresh room v =
    elim (Option-cases (find_reserved res owner cs)) [
      | inl e ↦ rw (e, reserve_locked) (mark_taken-Valid res owner mem cs short fresh room v)
      | inr (a, e) ↦
          rw (e, reserve_locked)
            (rw (reserve_again-modify res owner a true cs v.consistent v.alone e) v)
    ]

-- A requirement stated twice is one requirement: where the owner holds its reservation of the
-- resource already, reserving it again succeeds and changes nothing.
pub reserve_locked_again :
    (res : List ℕ) (owner a : ℕ) (exclusive : Bool) (mem : Option ℕ) (cs : List Claim)
    → Valid cs
    → find_reserved res owner cs ≡ some a
    → reserve_locked res owner exclusive mem cs ≡ (ok, cs)
unfolding reserve_locked
reserve_locked_again res owner a exclusive mem cs v e =
    rw (e, reserve_locked)
      (ap (λ l. (ok, l)) (reserve_again-modify res owner a exclusive cs v.consistent v.alone e))
