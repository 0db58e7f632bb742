-- ===== src/Claim/Take.antt =====
-- claim.c: `take_locked`, behind `rv9_claim_take` and `rv9_claim_reserve`.
use rv.Prelude.{
  ℕ, ◌-◌, ◌<◌, ◌≡◌, refl, ◌⊎◌, inl, inr, Bool, true, not, Option, none, some, List, [], ◌∷◌, arith,
  ◌==◌, str_eq_iff, length, take, all, take_all,
}
use rv.Claim.{Claim, Scan, blocked, clear, name_max, modify, scan, join, new_claim, take_locked}
use rv.Claim.Invariant.{
  agrees, Consistent, holds_at, admits, is_own, scan-admits, scan-holds_at, scan-none,
  Consistent-modify, all-modify, reserved_alone, has_room, is_fresh,
}

pub Scan-cases :
    (s : Scan) → ((by : ℕ) × (s ≡ blocked by)) ⊎ ((a : ℕ) × (s ≡ clear (some a))) ⊎ (s ≡ clear none)
Scan-cases (blocked by) = inl (by, refl)
Scan-cases (clear (some a)) = inr (inl (a, refl))
Scan-cases (clear none) = inr (inr refl)

join-Consistent :
    (a : ℕ) (res : List ℕ) (owner : ℕ) (exclusive : Bool) (cs : List Claim)
    → all has_room cs ≡ true
    → holds_at a res owner cs ≡ true
    → all (admits res owner exclusive) cs ≡ true
    → Consistent cs
    → Consistent (modify a (join exclusive) cs)
unfolding join
join-Consistent a res owner exclusive cs =
    Consistent-modify (join exclusive) exclusive has_room (λ c. refl) (λ c. refl) (λ c. refl)
      (λ c. refl) (λ c r p. ground arith) a res owner cs

new_claim-agrees :
    (a : ℕ) (res : List ℕ) (owner : ℕ) (exclusive : Bool) (cs : List Claim)
    → length res < name_max
    → all (λ c. not (a == c.addr)) cs ≡ true
    → all (admits res owner exclusive) cs ≡ true
    → all (λ c. not (is_own res owner c)) cs ≡ true
    → all (agrees (new_claim a res owner exclusive)) cs ≡ true
unfolding new_claim
new_claim-agrees a res owner exclusive [] short fresh adm other = refl
new_claim-agrees a res owner exclusive (c ∷ cs) short fresh adm other =
    let whole : take (name_max - 1) res ≡ res = take_all (name_max - 1) res (omega arith) in
    ground (
      arith,
      whole,
      str_eq_iff (take (name_max - 1) res) c.name,
      str_eq_iff c.name res,
      new_claim-agrees a res owner exclusive cs,
    )

-- An empty-handed scan lets a record be added; one that finds the caller's record lets it grow.
pub take_locked-Consistent :
    (res : List ℕ) (owner : ℕ) (exclusive : Bool) (mem : Option ℕ) (cs : List Claim)
    → length res < name_max
    → is_fresh mem cs ≡ true
    → all has_room cs ≡ true
    → Consistent cs
    → Consistent (take_locked res owner exclusive mem cs).2
unfolding take_locked new_claim
take_locked-Consistent res owner exclusive mem cs short fresh room v =
    elim (Scan-cases (scan res owner exclusive none cs)) [
      | inl (by, e) ↦ rw (e, take_locked) v
      | inr (inl (a, e)) ↦
          rw (e, take_locked)
            (join-Consistent a res owner exclusive cs room
              (ground (arith, scan-holds_at res owner exclusive none a cs v))
              (scan-admits res owner exclusive none (some a) cs e) v)
      | inr (inr e) ↦ added mem fresh e
    ]
  where
    added :
        (mem : Option ℕ)
        → is_fresh mem cs ≡ true
        → scan res owner exclusive none cs ≡ clear none
        → Consistent (take_locked res owner exclusive mem cs).2
    added none fresh e = rw (e, take_locked) v
    added (some a) fresh e =
        rw (e, take_locked)
          (
            omega arith,
            new_claim-agrees a res owner exclusive cs short fresh
                (scan-admits res owner exclusive none none cs e)
                (scan-none res owner exclusive none cs e).1,
            v,
          )

pub join-alone :
    (exclusive : Bool) (c : Claim)
    → reserved_alone c ≡ true
    → reserved_alone (join exclusive c) ≡ true
unfolding join
join-alone exclusive c h = ground arith

pub take_locked-alone :
    (res : List ℕ) (owner : ℕ) (exclusive : Bool) (mem : Option ℕ) (cs : List Claim)
    → all reserved_alone cs ≡ true
    → all reserved_alone (take_locked res owner exclusive mem cs).2 ≡ true
unfolding take_locked new_claim
take_locked-alone res owner exclusive none cs h =
    elim (Scan-cases (scan res owner exclusive none cs)) [
      | inl (by, e) ↦ rw (e, take_locked) h
      | inr (inl (a, e)) ↦
          rw (e, take_locked)
            (all-modify reserved_alone (join exclusive) (join-alone exclusive) a cs h)
      | inr (inr e) ↦ rw (e, take_locked) h
    ]
take_locked-alone res owner exclusive (some b) cs h =
    elim (Scan-cases (scan res owner exclusive none cs)) [
      | inl (by, e) ↦ rw (e, take_locked) h
      | inr (inl (a, e)) ↦
          rw (e, take_locked)
            (all-modify reserved_alone (join exclusive) (join-alone exclusive) a cs h)
      | inr (inr e) ↦ rw (e, take_locked) h
    ]
