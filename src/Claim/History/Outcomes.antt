-- ===== src/Claim/History/Outcomes.antt =====
-- claim.c: what holds of the table after any history.
use rv.Prelude.{
  ℕ, zero, suc, ◌+◌, ◌<◌, ◌≡◌, ◌≢◌, true, false, some, List, [], ◌∷◌, arith, str_eq_iff, get_elem?,
  all-get_elem?,
}
use rv.Claim.{Claim}
use rv.Claim.Invariant.{agrees, Consistent}
use rv.Claim.Accounts.{absent, weight, counted}
use rv.Claim.History.{World, Reach}
use rv.Claim.History.Sound.{Reach-Sound}

Consistent-agrees :
    (i j : ℕ) (c d : Claim) (cs : List Claim)
    → Consistent cs
    → i < j
    → get_elem? cs i ≡ some c
    → get_elem? cs j ≡ some d
    → agrees c d ≡ true
Consistent-agrees i j c d [] v h p q = absurd (cc)
Consistent-agrees zero zero c d (x ∷ cs) v h p q = absurd (omega arith)
Consistent-agrees zero (suc j) c d (x ∷ cs) v h p q =
    ground (arith, all-get_elem? (agrees x) cs j v.1 q)
Consistent-agrees (suc i) zero c d (x ∷ cs) v h p q = absurd (omega arith)
Consistent-agrees (suc i) (suc j) c d (x ∷ cs) v h p q =
    Consistent-agrees i j c d cs v.2 (omega arith) p q

-- After any history of opens, closes, reservations, releases and failsafe promises, two records of
-- the table that name one resource have different owners, and neither of them is exclusive: an
-- exclusive claim is the only one on its resource, and an owner has one record for each resource.
pub Reach-exclusive :
    {w : World} (i j : ℕ) (c d : Claim)
    → Reach w
    → i < j
    → get_elem? w.table.claims i ≡ some c
    → get_elem? w.table.claims j ≡ some d
    → c.name ≡ d.name
    → (c.owner ≢ d.owner) × (c.exclusive ≡ false) × (d.exclusive ≡ false)
Reach-exclusive {w = w} i j c d r h p q e = ground (
  arith,
  Consistent-agrees i j c d w.table.claims (Reach-Sound r).valid.consistent h p q,
  str_eq_iff c.name d.name,
)

-- After any such history, with an open path or none, the count of each record is the number of open
-- paths that point at it, and one more if a reservation of it is outstanding; and each record that an
-- open path points at is in the table, so no path is left with a pointer to freed memory. In such a
-- history an open that is granted and a reservation are made with a name that fits its buffer, with
-- memory that no record has, and while every count is below its limit of 65535.
pub Reach-counts :
    {w : World} (i : ℕ) (c : Claim)
    → Reach w
    → get_elem? w.table.claims i ≡ some c
    → (c.refs ≡ w.held c.addr + weight c)
      × ((a : ℕ) → 0 < w.held a → absent a w.table.claims ≡ false)
Reach-counts {w = w} i c r p =
    let k = (Reach-Sound r).accounted in
    (
      ground (arith, all-get_elem? (counted w.held) w.table.claims i k.exact p),
      λ a h. ground (arith, k.present a),
    )
