-- ===== src/Claim/Failsafe.antt =====
-- claim.c: failsafes, and the reports that walk the list.
use mathlib.Core.List.{append_assoc, append-nil}
use rv.Prelude.{
  ℕ, ◌+◌, ◌-◌, ◌≡◌, inl, inr, Bool, true, not, ◌&&◌, ◌||◌, Option, none, some, List, [], ◌∷◌, ◌++◌,
  arith, ltb, ◌==◌, if◌then◌else◌, str_eq, Bool-cases, length, take, take_zero, take-sub_cons,
  take-nil,
}
use rv.Claim.{Claim, Table, name_max}

-- `rv9_claim_fs_t`.
pub record FailsafeEntry : Type 0 where
  pub name : List ℕ
  pub value : ℕ

-- The loop of `rv9_claim_failsafes`: `n`, and the entries of `out` written so far. `has_out` says
-- that `out` is not NULL.
failsafes_from : ℕ → Bool → ℕ → ℕ → List FailsafeEntry → List Claim → ℕ × List FailsafeEntry
failsafes_from owner has_out max n out [] = (n, out)
failsafes_from owner has_out max n out (c ∷ cs) =
    let skip = failsafes_from owner has_out max n out cs in
    let write =
      failsafes_from owner has_out max (n + 1)
        (out ++ record { name = take (name_max - 1) c.name; value = c.failsafe_value } ∷ []) cs in
    let count = failsafes_from owner has_out max (n + 1) out cs in
    if not (c.owner == owner) || not c.has_failsafe
    then skip
    else if has_out && ltb n max
    then write
    else count

pub claim_failsafes : ℕ → Bool → ℕ → Table → ℕ × List FailsafeEntry
unfolding failsafes_from
claim_failsafes owner has_out max t =
    if not t.ready then (0, []) else failsafes_from owner has_out max 0 [] t.claims

-- `rv9_sys_claim_t`: the bytes of the record that `rv9_claim_list` fills.
pub record ClaimReport : Type 0 where
  pub name : List ℕ
  pub owner : ℕ
  pub exclusive : Bool
  pub reserved_at_fork : Bool
  pub refs : ℕ
  pub has_failsafe : Bool
  pub failsafe_value : ℕ

list_from : Bool → ℕ → ℕ → List ClaimReport → List Claim → ℕ × List ClaimReport
list_from has_out max n out [] = (n, out)
list_from has_out max n out (c ∷ cs) =
    list_from has_out max (n + 1)
      (if has_out && ltb n max
        then out
          ++ record {
            name = take (name_max - 1) c.name;
            owner = c.owner;
            exclusive = c.exclusive;
            reserved_at_fork = c.reserved;
            refs = c.refs;
            has_failsafe = c.has_failsafe;
            failsafe_value = c.failsafe_value;
          }
            ∷ []
        else out)
      cs

pub claim_list : Bool → ℕ → Table → ℕ × List ClaimReport
unfolding list_from
claim_list has_out max t = if not t.ready then (0, []) else list_from has_out max 0 [] t.claims

-- The loop of `rv9_claim_owner`: the last owner met, or the first that is exclusive.
owner_from : List ℕ → Option (ℕ × Bool) → List Claim → Option (ℕ × Bool)
owner_from res found [] = found
owner_from res found (c ∷ cs) =
    let skip = owner_from res found cs in
    let next = owner_from res (some (c.owner, c.exclusive)) cs in
    if not (str_eq c.name res)
    then skip
    else if c.exclusive
    then some (c.owner, c.exclusive)
    else next

pub claim_owner : Option (List ℕ) → Table → Option (ℕ × Bool)
unfolding owner_from
claim_owner none t = none
claim_owner (some res) t = if not t.ready then none else owner_from res none t.claims

-- What `owner` has promised to park, in the order of the list.
pub promises : ℕ → List Claim → List FailsafeEntry
promises owner [] = []
promises owner (c ∷ cs) =
    if c.owner == owner && c.has_failsafe
    then record { name = take (name_max - 1) c.name; value = c.failsafe_value } ∷ promises owner cs
    else promises owner cs

failsafes_from-promises :
    (owner max n : ℕ) (out : List FailsafeEntry) (cs : List Claim)
    → failsafes_from owner true max n out cs
      ≡ (n + length (promises owner cs), out ++ take (max - n) (promises owner cs))
unfolding failsafes_from promises
failsafes_from-promises owner max n out [] =
    ground (arith, take-nil FailsafeEntry (max - n), append-nil out)
failsafes_from-promises owner max n out (c ∷ cs) =
    let entry : FailsafeEntry = record {
      name = take (name_max - 1) c.name;
      value = c.failsafe_value;
    } in
    elim (Bool-cases (c.owner == owner && c.has_failsafe)) [
      | inr other ↦ ground (arith, failsafes_from-promises owner max n out cs)
      | inl own ↦ elim (Bool-cases (ltb n max)) [
        | inl room ↦ ground (
          arith,
          failsafes_from-promises owner max (n + 1) (out ++ entry ∷ []) cs,
          take-sub_cons max n entry (promises owner cs),
          append_assoc out (entry ∷ []) (take (max - (n + 1)) (promises owner cs)),
        )
        | inr full ↦ ground (
          arith,
          failsafes_from-promises owner max (n + 1) out cs,
          take_zero (max - n) (entry ∷ promises owner cs),
          take_zero (max - (n + 1)) (promises owner cs),
        )
      ]
    ]

-- `rv9_claim_failsafes` answers how many devices the owner has promised to park, and fills the
-- buffer with the first `max` of them, in the order of the list.
pub claim_failsafes-promises :
    (owner max : ℕ) (t : Table)
    → t.ready ≡ true
    → claim_failsafes owner true max t
      ≡ (length (promises owner t.claims), take max (promises owner t.claims))
unfolding claim_failsafes
claim_failsafes-promises owner max t r =
    ground (arith, failsafes_from-promises owner max 0 [] t.claims)
