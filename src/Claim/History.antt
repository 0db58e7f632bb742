-- ===== src/Claim/History.antt =====
-- claim.c: everything that its callers can do to the table, in any order.
use rv.Prelude.{ℕ, ◌<◌, ◌≡◌, Bool, true, Option, none, some, List, [], length, all}
use rv.Claim.{
  Claim, Table, name_max, claim_take, claim_drop, claim_reserve, claim_release_pid, claim_failsafe,
}
use rv.Claim.Invariant.{has_room, is_fresh}
use rv.Claim.Accounts.{more, fewer}
pub mod Sound
pub mod Outcomes

-- The table, and how many open paths point at each record.
pub record World : Type 0 where
  pub table : Table
  pub held : ℕ → ℕ

abbrev pub with_claims : Table → List Claim → Table
with_claims t cs = record t { claims = cs }

-- What the I/O manager and the process manager do: open a path (refused or not), close one that is
-- open, reserve a device alone at fork, release what a process reserved, and record a failsafe.
-- A name fits its buffer, memory is new, and no count is at its limit.
pub data Step (w : World) : World → Type 0 where
  opens :
      (res : List ℕ) (owner : ℕ) (exclusive : Bool) (mem : Option ℕ) (a : ℕ)
      → length res < name_max
      → is_fresh mem w.table.claims ≡ true
      → all has_room w.table.claims ≡ true
      → (claim_take (some res) owner exclusive true mem w.table).1 ≡ some a
      → Step w (record {
        table = (claim_take (some res) owner exclusive true mem w.table).2;
        held = more a w.held;
      })
  refused :
      (res : List ℕ) (owner : ℕ) (exclusive : Bool) (mem : Option ℕ)
      → (claim_take (some res) owner exclusive true mem w.table).1 ≡ none
      → Step w (record {
        table = (claim_take (some res) owner exclusive true mem w.table).2;
        held = w.held;
      })
  closes :
      (a : ℕ)
      → 0 < w.held a
      → Step w (record { table = claim_drop (some a) w.table; held = fewer a w.held })
  reserves :
      (res : List ℕ) (owner : ℕ) (mem : Option ℕ)
      → length res < name_max
      → is_fresh mem w.table.claims ≡ true
      → all has_room w.table.claims ≡ true
      → Step w
          (record { table = (claim_reserve (some res) owner true mem w.table).1; held = w.held })
  releases :
      (owner : ℕ) → Step w (record { table = claim_release_pid owner w.table; held = w.held })
  promises_to :
      (res : List ℕ) (owner value : ℕ)
      → Step w (record { table = (claim_failsafe (some res) owner value w.table).1; held = w.held })

abbrev pub initial : World
initial = record { table = record { claims = []; ready = true }; held = λ a. 0 }

pub data Reach : World → Type 0 where
  start : Reach initial
  next : {v w : World} → Reach v → Step v w → Reach w
