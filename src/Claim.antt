-- ===== src/Claim.antt =====
-- components/rv9_io/src/claim.c: who owns a device.
-- A claim record is named by its address, so that a pointer held by an open path is a number.
-- What `rv9_calloc` returns is an argument of each operation that allocates (`none` is NULL), and
-- so is a pointer that the code tests for NULL. The lock is held throughout each operation.
pub mod Invariant
pub mod Take
pub mod Refusal
pub mod Drop
pub mod Release
pub mod Reserve
pub mod Exclusive
pub mod Failsafe
pub mod Accounts
pub mod Counts
pub mod ReserveAccounts
pub mod History
mod Tests
use rv.Prelude.{
  ℕ, ◌+◌, ◌-◌, ◌%◌, ◌^◌, Bool, true, false, not, ◌&&◌, ◌||◌, Option, none, some, List, [], ◌∷◌,
  ◌++◌, ltb, ◌==◌, if◌then◌else◌, str_eq, take, length,
}

-- RV9_CLAIM_NAME_MAX.
abbrev pub name_max : ℕ
name_max = 48

-- `struct rv9_claim`; `addr` is where it lies.
pub record Claim : Type 0 where
  pub addr : ℕ
  pub name : List ℕ
  pub owner : ℕ
  pub exclusive : Bool
  pub reserved : Bool
  pub refs : ℕ
  pub has_failsafe : Bool
  pub failsafe_value : ℕ

-- `s_claims`, newest first, and whether `s_lock` exists.
pub record Table : Type 0 where
  pub claims : List Claim
  pub ready : Bool

-- `rv9_claim_init`; `created` is whether `rv9_lock_create` made the lock.
pub claim_init : Bool → Table → Bool × Table
claim_init created t =
    if t.ready then (true, t) else if created then (true, record t { ready = true }) else (false, t)

-- The values of `rv9_io_err_t` that this file returns; `busy` carries the blocker that is logged.
pub data Status : Type 0 where
  ok invalid no_memory not_found : Status
  busy : ℕ → Status

-- `*pp = take (cap - 1) of dev, '/', rest`: the bytes that the buffer of `cap` bytes receives.
append_within : ℕ → List ℕ → List ℕ → List ℕ
append_within cap out [] = out
append_within cap out (b ∷ bs) =
    append_within cap (if ltb (length out + 1) cap then out ++ b ∷ [] else out) bs

pub claim_resource : ℕ → List ℕ → List ℕ → List ℕ
unfolding append_within
claim_resource cap dev [] = append_within cap [] dev
claim_resource cap dev (b ∷ bs) =
    append_within cap (append_within cap (append_within cap [] dev) (b'/' ∷ [])) (b ∷ bs)

-- A write through a pointer to the record at `a`.
pub modify : ℕ → (Claim → Claim) → List Claim → List Claim
modify a f [] = []
modify a f (c ∷ cs) = if c.addr == a then f c ∷ cs else c ∷ modify a f cs

-- What the loop of `take_locked` ends with: a conflict, or the caller's own record if it has one.
pub data Scan : Type 0 where
  blocked : ℕ → Scan
  clear : Option ℕ → Scan

pub scan : List ℕ → ℕ → Bool → Option ℕ → List Claim → Scan
scan res owner exclusive mine [] = clear mine
scan res owner exclusive mine (c ∷ cs) =
    let next = scan res owner exclusive mine cs in
    let found = scan res owner exclusive (some c.addr) cs in
    if not (str_eq c.name res)
    then next
    else if c.owner == owner
    then found
    else if c.exclusive || exclusive
    then blocked c.owner
    else next

-- `if (exclusive) mine->exclusive = true; mine->refs++`, on a uint16_t.
pub join : Bool → Claim → Claim
join exclusive c = record c { exclusive = exclusive || c.exclusive; refs = (c.refs + 1) % 2 ^ 16 }

pub new_claim : ℕ → List ℕ → ℕ → Bool → Claim
new_claim a res owner exclusive = record {
  addr = a;
  name = take (name_max - 1) res;
  owner = owner;
  exclusive = exclusive;
  reserved = false;
  refs = 1;
  has_failsafe = false;
  failsafe_value = 0;
}

-- The status, `*out`, and the list afterwards.
pub take_locked : List ℕ → ℕ → Bool → Option ℕ → List Claim → Status × Option ℕ × List Claim
take_locked res owner exclusive mem cs = elim (scan res owner exclusive none cs) [
  | blocked by ↦ (busy by, none, cs)
  | clear (some a) ↦ (ok, some a, modify a (join exclusive) cs)
  | clear none ↦ elim mem [
    | none ↦ (no_memory, none, cs)
    | some a ↦ (ok, some a, new_claim a res owner exclusive ∷ cs)
  ]
]

-- `none` is a NULL `resource`, and `has_out` says that `out` is not NULL.
pub claim_take : Option (List ℕ) → ℕ → Bool → Bool → Option ℕ → Table → Status × Option ℕ × Table
claim_take none owner exclusive has_out mem t = (invalid, none, t)
claim_take (some res) owner exclusive has_out mem t =
    let (s, out, cs) = take_locked res owner exclusive mem t.claims in
    if not has_out
    then (invalid, none, t)
    else if not t.ready
    then (ok, none, t)
    else (s, out, record t { claims = cs })

-- The reference count at `a`; 0 where no record lies.
pub refs_at : ℕ → List Claim → ℕ
refs_at a [] = 0
refs_at a (c ∷ cs) = if c.addr == a then c.refs else refs_at a cs

pub unlink : ℕ → List Claim → List Claim
unlink a [] = []
unlink a (c ∷ cs) = if c.addr == a then cs else c ∷ unlink a cs

-- `if (c->refs > 0) c->refs--`.
pub release_ref : Claim → Claim
release_ref c = record c { refs = if ltb 0 c.refs then c.refs - 1 else c.refs }

-- Whether the record was freed, and the list afterwards.
pub drop_locked : ℕ → List Claim → Bool × List Claim
drop_locked a cs =
    let cs' = modify a release_ref cs in
    if ltb 0 (refs_at a cs') then (false, cs') else (true, unlink a cs')

pub claim_drop : Option ℕ → Table → Table
claim_drop none t = t
claim_drop (some a) t = if not t.ready then t else record t { claims = (drop_locked a t.claims).1 }

-- The first record of `owner` for `res` that carries a reservation.
pub find_reserved : List ℕ → ℕ → List Claim → Option ℕ
find_reserved res owner [] = none
find_reserved res owner (c ∷ cs) =
    if c.owner == owner && str_eq c.name res && c.reserved
    then some c.addr
    else find_reserved res owner cs

abbrev pub reserve_mark : Claim → Claim
reserve_mark c = record c { reserved = true }

-- `if (exclusive) c->exclusive = true`.
pub make_exclusive : Bool → Claim → Claim
make_exclusive exclusive c = record c { exclusive = exclusive || c.exclusive }

-- `if (err == RV9_IO_OK) c->reserved = true`.
pub mark_taken : Status × Option ℕ × List Claim → Status × List Claim
mark_taken (s, some a, cs) = (s, modify a reserve_mark cs)
mark_taken (s, none, cs) = (s, cs)

pub reserve_locked : List ℕ → ℕ → Bool → Option ℕ → List Claim → Status × List Claim
reserve_locked res owner exclusive mem cs = elim (find_reserved res owner cs) [
  | some a ↦ (ok, modify a (make_exclusive exclusive) cs)
  | none ↦ mark_taken (take_locked res owner exclusive mem cs)
]

pub claim_reserve : Option (List ℕ) → ℕ → Bool → Option ℕ → Table → Status × Table
claim_reserve none owner exclusive mem t = (invalid, t)
claim_reserve (some res) owner exclusive mem t =
    let (s, cs) = reserve_locked res owner exclusive mem t.claims in
    if not t.ready then (ok, t) else (s, record t { claims = cs })

abbrev pub reserve_clear : Claim → Claim
reserve_clear c = record c { reserved = false }

-- The loop of `rv9_claim_release_pid` from the record `c` on; it reads `c->next` before it may
-- free `c`, so it visits the records that were there at the start.
pub release_from : ℕ → List Claim → List Claim → List Claim
release_from owner [] cs = cs
release_from owner (c ∷ rest) cs = release_from owner rest (
    if c.owner == owner && c.reserved
    then (drop_locked c.addr (modify c.addr reserve_clear cs)).1
    else cs)

pub claim_release_pid : ℕ → Table → Table
claim_release_pid owner t =
    if not t.ready then t else record t { claims = release_from owner t.claims t.claims }

-- The first record of `owner` for `res`.
pub find_owned : List ℕ → ℕ → List Claim → Option ℕ
find_owned res owner [] = none
find_owned res owner (c ∷ cs) =
    if c.owner == owner && str_eq c.name res then some c.addr else find_owned res owner cs

abbrev pub promise : ℕ → Claim → Claim
promise value c = record c { has_failsafe = true; failsafe_value = value }

pub claim_failsafe : Option (List ℕ) → ℕ → ℕ → Table → Status × Table
claim_failsafe none owner value t = (invalid, t)
claim_failsafe (some res) owner value t =
    if not t.ready then (not_found, t) else elim (find_owned res owner t.claims) [
      | some a ↦ (ok, record t { claims = modify a (promise value) t.claims })
      | none ↦ (not_found, t)
    ]
