-- ===== src/Claim/ReserveAccounts.antt =====
-- claim.c: a reservation is counted once, on top of the open paths.
use rv.Prelude.{
  ℕ, ◌<◌, ◌≡◌, refl, subst, inl, inr, Bool, true, not, ◌||◌, Option, none, some, List, [], ◌∷◌,
  arith, ◌==◌, Option-cases, length, all,
}
use rv.Claim.{
  Claim, clear, name_max, modify, scan, join, new_claim, take_locked, find_reserved, reserve_mark,
  mark_taken, reserve_locked,
}
use rv.Claim.Invariant.{
  Valid, agrees, Consistent, holds_at, scan-holds_at, all-modify, has_room, is_fresh,
}
use rv.Claim.Take.{Scan-cases, take_locked-Consistent}
use rv.Claim.Reserve.{reserve_again-modify, take_locked_kept}
use rv.Claim.Counts.{fresh-absent, take_locked-Accounted}
use rv.Claim.Accounts.{Accounted, absent, more, counted-modify, absent-modify}

-- A record at `a` has no reservation yet.
abbrev unreserved_at : ℕ → Claim → Bool
unreserved_at a c = not (c.addr == a) || not c.reserved

unreserved-elsewhere :
    (c : Claim) (a : ℕ) (cs : List Claim)
    → c.addr ≡ a
    → all (agrees c) cs ≡ true
    → all (unreserved_at a) cs ≡ true
unreserved-elsewhere c a [] e h = refl
unreserved-elsewhere c a (d ∷ cs) e h = ground (arith, unreserved-elsewhere c a cs)

unreserved_of_none :
    (res : List ℕ) (owner a : ℕ) (cs : List Claim)
    → Consistent cs
    → find_reserved res owner cs ≡ none
    → holds_at a res owner cs ≡ true
    → all (unreserved_at a) cs ≡ true
unfolding find_reserved
unreserved_of_none res owner a [] v h own = refl
unreserved_of_none res owner a (c ∷ cs) v h own =
    ground (arith, unreserved_of_none res owner a cs v.2, unreserved-elsewhere c a cs)

absent-unreserved : (a : ℕ) (cs : List Claim) → absent a cs ≡ true → all (unreserved_at a) cs ≡ true
absent-unreserved a [] h = refl
absent-unreserved a (c ∷ cs) h = ground (arith, absent-unreserved a cs)

join-unreserved :
    (a : ℕ) (exclusive : Bool) (c : Claim)
    → unreserved_at a c ≡ true
    → unreserved_at a (join exclusive c) ≡ true
unfolding join
join-unreserved a exclusive c h = h

take_locked-unreserved :
    (res : List ℕ) (owner a : ℕ) (mem : Option ℕ) (cs : List Claim)
    → is_fresh mem cs ≡ true
    → Consistent cs
    → find_reserved res owner cs ≡ none
    → (take_locked res owner true mem cs).1 ≡ some a
    → all (unreserved_at a) (take_locked res owner true mem cs).2 ≡ true
unfolding take_locked new_claim
take_locked-unreserved res owner a mem cs fresh v n h =
    elim (Scan-cases (scan res owner true none cs)) [
      | inl (by, e) ↦ absurd (ground arith)
      | inr (inl (x, e)) ↦
          let same : x ≡ a = ground arith in
          let own : holds_at x res owner cs ≡ true =
            ground (arith, scan-holds_at res owner true none x cs v) in
          rw (e, take_locked)
            (subst (λ y. all (unreserved_at y) (modify x (join true) cs) ≡ true) same
              (all-modify (unreserved_at x) (join true) (join-unreserved x true) x cs
                (unreserved_of_none res owner x cs v n own)))
      | inr (inr e) ↦ added mem fresh h e
    ]
  where
    added :
        (mem : Option ℕ)
        → is_fresh mem cs ≡ true
        → (take_locked res owner true mem cs).1 ≡ some a
        → scan res owner true none cs ≡ clear none
        → all (unreserved_at a) (take_locked res owner true mem cs).2 ≡ true
    added none f h e = absurd (ground arith)
    added (some b) f h e = ground (arith, absent-unreserved a cs, fresh-absent b cs f)

mark-Accounted :
    (held : ℕ → ℕ) (a : ℕ) (cs : List Claim)
    → Consistent cs
    → all (unreserved_at a) cs ≡ true
    → Accounted (more a held) cs
    → Accounted held (modify a reserve_mark cs)
mark-Accounted held a cs v u k = record {
  exact =
      counted-modify (more a held) held a (λ x g. ground arith) reserve_mark (λ c. refl)
        (unreserved_at a) (λ c r e g. ground arith) cs v u k.exact;
  present = λ b g.
      let gone : absent b cs ≡ true = rw (absent-modify a b reserve_mark cs (λ c. refl)) at g in
      ground (arith, k.present b gone);
}

-- Reserving a device alone adds one reference to what the open paths come to, or none where the
-- reservation was there.
pub reserve_locked-Accounted :
    (held : ℕ → ℕ) (res : List ℕ) (owner : ℕ) (mem : Option ℕ) (cs : List Claim)
    → length res < name_max
    → is_fresh mem cs ≡ true
    → all has_room cs ≡ true
    → Valid cs
    → Accounted held cs
    → Accounted held (reserve_locked res owner true mem cs).1
unfolding reserve_locked mark_taken
reserve_locked-Accounted held res owner mem cs short fresh room v k =
    elim (Option-cases (find_reserved res owner cs)) [
      | inr (a, e) ↦
          rw (e, reserve_locked)
            (rw (reserve_again-modify res owner a true cs v.consistent v.alone e) k)
      | inl e ↦ elim (Option-cases (take_locked res owner true mem cs).1) [
        | inl n ↦
            rw (e, reserve_locked, n, mark_taken) (rw (take_locked_kept res owner true mem cs n) k)
        | inr (a, n) ↦
            rw (e, reserve_locked, n, mark_taken)
              (mark-Accounted held a (take_locked res owner true mem cs).2
                (take_locked-Consistent res owner true mem cs short fresh room v.consistent)
                (take_locked-unreserved res owner a mem cs fresh v.consistent e n)
                (take_locked-Accounted held res owner a true mem cs fresh room v.consistent k n))
      ]
    ]
