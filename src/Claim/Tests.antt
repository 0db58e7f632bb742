-- ===== src/Claim/Tests.antt =====
-- claim.c: what the table does on concrete claims.
use rv.Claim.Exclusive.{reserve_locked_unchecked}
use rv.Claim.Release.{released, release_from-released}
use rv.Claim.Drop.{drop_locked-take_locked}
use rv.Prelude.{ℕ, ◌+◌, ◌<◌, ◌≡◌, refl, ◌≢◌, true, false, none, some, List, [], ◌∷◌, arith, str_eq}
use rv.Claim.{
  Claim, Table, ok, busy, modify, scan, new_claim, take_locked, claim_take, drop_locked,
  find_reserved, reserve_locked, release_from,
}
use rv.Claim.Invariant.{Valid, Consistent}
use rv.Claim.Accounts.{absent, weight, more}
use rv.Claim.History.{World, opens, Reach, start, next, initial}
use rv.Claim.History.Outcomes.{Reach-exclusive, Reach-counts}

-- "/d0".
abbrev d0 : List ℕ
d0 = b'/' ∷ b'd' ∷ b'0' ∷ []

-- A shared claim of pid 3 and one of pid 5 on /d0, each by one open path.
abbrev of_three : Claim
of_three = new_claim 100 d0 3 false

abbrev of_five : Claim
of_five = new_claim 200 d0 5 false

abbrev shared : List Claim
shared = of_five ∷ of_three ∷ []

-- Pid 7 alone on /d0, by an open path and a reservation.
abbrev alone : List Claim
alone = record (new_claim 300 d0 7 true) { reserved = true; refs = 2 } ∷ []

-- A reservation of pid 3 beside the open path of pid 5.
abbrev reserved_shared : List Claim
reserved_shared = of_five ∷ record of_three { reserved = true } ∷ []

abbrev table_of : List Claim → Table
table_of cs = record { claims = cs; ready = true }

abbrev first_open : World
first_open = record { table = table_of (of_three ∷ []); held = more 100 initial.held }

abbrev second_open : World
second_open = record { table = table_of shared; held = more 200 first_open.held }

two_opens : Reach second_open
unfolding claim_take take_locked scan new_claim modify str_eq
two_opens =
    next (next start (opens d0 3 false (some 100) 100 (omega arith) refl refl refl))
      (opens d0 5 false (some 200) 200 (omega arith) refl refl refl)

Reach-exclusive_example :
    (of_five.owner ≢ of_three.owner) × (of_five.exclusive ≡ false) × (of_three.exclusive ≡ false)
unfolding new_claim
Reach-exclusive_example =
    Reach-exclusive 0 1 of_five of_three two_opens (omega arith) refl refl refl

Reach-counts_example :
    (of_three.refs ≡ second_open.held of_three.addr + weight of_three)
    × ((a : ℕ) → 0 < second_open.held a → absent a second_open.table.claims ≡ false)
unfolding new_claim
Reach-counts_example = Reach-counts 1 of_three two_opens refl

shared-Consistent : Consistent shared
unfolding new_claim str_eq
shared-Consistent = (ground arith, refl, (ground arith, refl, tt))

shared-Valid : Valid shared
unfolding new_claim
shared-Valid = record { consistent = shared-Consistent; alone = refl }

alone-Valid : Valid alone
unfolding new_claim
alone-Valid = record { consistent = (ground arith, refl, tt); alone = refl }

drop_locked-take_locked_example :
    (drop_locked 400 (take_locked d0 9 false (some 400) shared).2).1 ≡ shared
unfolding take_locked scan new_claim str_eq
drop_locked-take_locked_example =
    drop_locked-take_locked d0 9 (some 400) 400 shared shared-Consistent refl refl

release_from-released_example : release_from 7 alone alone ≡ released 7 alone
release_from-released_example = release_from-released 7 alone alone-Valid.consistent

reserve_locked_unchecked_example :
    ((reserve_locked d0 3 true none reserved_shared).0 ≡ ok)
    × ((by : ℕ) × (take_locked d0 3 true none reserved_shared ≡ (busy by, none, reserved_shared)))
unfolding new_claim find_reserved str_eq
reserve_locked_unchecked_example =
    reserve_locked_unchecked d0 3 100 none 0 of_five reserved_shared refl refl
      (record { same = refl; other = ground arith; alone = refl })

abbrev promising : Table
promising = table_of (record of_three { has_failsafe = true; failsafe_value = 90 } ∷ [])
