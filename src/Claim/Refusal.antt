-- ===== src/Claim/Refusal.antt =====
-- claim.c: when a claim is refused.
use rv.Prelude.{
  ℕ, zero, suc, ◌≡◌, refl, ◌≢◌, inl, inr, Bool, true, ◌||◌, Option, none, some, List, [], ◌∷◌,
  arith, ◌==◌, str_eq, str_eq_iff, Bool-cases, get_elem?,
}
use rv.Claim.{Claim, busy, blocked, scan, take_locked}

-- `c` keeps `owner` from `res`: another owner's record on it, one of the two being exclusive.
pub record Blocks (res : List ℕ) (owner : ℕ) (exclusive : Bool) (c : Claim) : Type 0 where
  pub same : c.name ≡ res
  pub other : c.owner ≢ owner
  pub alone : (c.exclusive || exclusive) ≡ true

scan-Blocks :
    (res : List ℕ) (owner : ℕ) (exclusive : Bool) (mine : Option ℕ) (by : ℕ) (cs : List Claim)
    → scan res owner exclusive mine cs ≡ blocked by
    → (i : ℕ) × (c : Claim) × (get_elem? cs i ≡ some c)
      × (c.owner ≡ by)
      × Blocks res owner exclusive c
unfolding scan
scan-Blocks res owner exclusive mine by [] h = absurd (cc)
scan-Blocks res owner exclusive mine by (c ∷ cs) h = elim (Bool-cases (str_eq c.name res)) [
  | inr other ↦ later (scan-Blocks res owner exclusive mine by cs (ground arith))
  | inl same ↦ elim (Bool-cases (c.owner == owner)) [
    | inl own ↦ later (scan-Blocks res owner exclusive (some c.addr) by cs (ground arith))
    | inr foreign ↦ elim (Bool-cases (c.exclusive || exclusive)) [
      | inl stop ↦ (
        0,
        c,
        refl,
        ground arith,
        record { same = (str_eq_iff c.name res).0 same; other = ground arith; alone = stop },
      )
      | inr shared ↦ later (scan-Blocks res owner exclusive mine by cs (ground arith))
    ]
  ]
]
  where
    later :
        (i : ℕ) × (d : Claim) × (get_elem? cs i ≡ some d)
          × (d.owner ≡ by)
          × Blocks res owner exclusive d
        → (i : ℕ) × (d : Claim) × (get_elem? (c ∷ cs) i ≡ some d)
          × (d.owner ≡ by)
          × Blocks res owner exclusive d
    later (i, d, at, held, stop) = (suc i, d, at, held, stop)

scan_blocked :
    (res : List ℕ) (owner : ℕ) (exclusive : Bool) (mine : Option ℕ) (i : ℕ) (c : Claim)
    (cs : List Claim)
    → get_elem? cs i ≡ some c
    → Blocks res owner exclusive c
    → (by : ℕ) × (scan res owner exclusive mine cs ≡ blocked by)
unfolding scan
scan_blocked res owner exclusive mine i c [] h b = absurd (cc)
scan_blocked res owner exclusive mine zero c (d ∷ cs) h b =
    (c.owner, ground (arith, str_eq_iff d.name res))
scan_blocked res owner exclusive mine (suc i) c (d ∷ cs) h b =
    elim (Bool-cases (str_eq d.name res)) [
      | inr other ↦ rw other (scan_blocked res owner exclusive mine i c cs h b)
      | inl same ↦ elim (Bool-cases (d.owner == owner)) [
        | inl own ↦ rw (same, own) (scan_blocked res owner exclusive (some d.addr) i c cs h b)
        | inr foreign ↦ elim (Bool-cases (d.exclusive || exclusive)) [
          | inl stop ↦ (d.owner, ground arith)
          | inr shared ↦
              rw (same, foreign, shared) (scan_blocked res owner exclusive mine i c cs h b)
        ]
      ]
    ]

scan_of_busy :
    (res : List ℕ) (owner : ℕ) (exclusive : Bool) (mem : Option ℕ) (by : ℕ) (cs : List Claim)
    → (take_locked res owner exclusive mem cs).0 ≡ busy by
    → scan res owner exclusive none cs ≡ blocked by
unfolding take_locked
scan_of_busy res owner exclusive mem by cs h = ground arith

-- If `take_locked` says that the resource belongs to `by`, then some record of `by` blocks the
-- caller (it is on the resource, its owner is another, and it or the request is exclusive), and
-- the list is left as it was.
pub take_locked_refused :
    (res : List ℕ) (owner : ℕ) (exclusive : Bool) (mem : Option ℕ) (by : ℕ) (cs : List Claim)
    → (take_locked res owner exclusive mem cs).0 ≡ busy by
    → (i : ℕ) × (c : Claim) × (get_elem? cs i ≡ some c)
      × (c.owner ≡ by)
      × Blocks res owner exclusive c
      × (take_locked res owner exclusive mem cs ≡ (busy by, none, cs))
unfolding take_locked
take_locked_refused res owner exclusive mem by cs h =
    let e = scan_of_busy res owner exclusive mem by cs h in
    let (i, c, at, held, b) = scan-Blocks res owner exclusive none by cs e in
    (i, c, at, held, b, rw (e, take_locked))

-- If some record blocks the caller, whatever stands before it, `take_locked` answers that the
-- resource is busy, and leaves the list as it was.
pub take_locked_blocked :
    (res : List ℕ) (owner : ℕ) (exclusive : Bool) (mem : Option ℕ) (i : ℕ) (c : Claim)
    (cs : List Claim)
    → get_elem? cs i ≡ some c
    → Blocks res owner exclusive c
    → (by : ℕ) × (take_locked res owner exclusive mem cs ≡ (busy by, none, cs))
unfolding take_locked
take_locked_blocked res owner exclusive mem i c cs h b =
    let (by, e) = scan_blocked res owner exclusive none i c cs h b in (by, rw (e, take_locked))
