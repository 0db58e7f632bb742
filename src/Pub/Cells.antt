-- ===== src/Pub/Cells.antt =====
-- pfm.c: the cells of a device, who may write them, and what is left of a process that has ended.
-- A cell is named by its place in the store, and a name is its bytes before the NUL. The lock of the
-- device is held by each operation from its first look at the cells to its last.
pub mod Held
pub mod Owner
mod Tests
use rv.Prelude.{
  ℕ, zero, suc, ◌+◌, ◌-◌, ◌%◌, ◌^◌, Bool, true, false, not, ◌&&◌, ◌||◌, Option, none, some, List,
  [], ◌∷◌, map, ltb, leb, ◌==◌, if◌then◌else◌, str_eq, length, get_elem?, take, all,
}

-- What `pub_cell_t` has under the lock, with its `seq`.
pub record Entry : Type 0 where
  pub name : List ℕ
  pub held : Bool
  pub writer : ℕ
  pub readers : ℕ
  pub reserved_by : ℕ
  pub last_writer : ℕ
  pub fault : ℕ
  pub meaning : List ℕ
  pub seq : ℕ

-- `pub_path_t`: no cell is a path to the device itself.
pub record PubPath : Type 0 where
  pub cell : Option ℕ
  pub is_writer : Bool
  pub reading : Bool

pub data Status : Type 0 where
  ok no_memory mode_error invalid not_found busy : Status

-- RV9_PUB_MAX_NAME and RV9_MEANING_MAX.
abbrev pub max_name : ℕ
max_name = 24

abbrev pub meaning_max : ℕ
meaning_max = 12

-- A write to the cell in place `i`.
pub on_cell : ℕ → (Entry → Entry) → List Entry → List Entry
on_cell i f [] = []
on_cell zero f (c ∷ cs) = f c ∷ cs
on_cell (suc i) f (c ∷ cs) = c ∷ on_cell i f cs

abbrev pub is_used : Entry → Bool
is_used c = not (length c.name == 0)

pub find_cell : List ℕ → ℕ → List Entry → Option ℕ
find_cell name i [] = none
find_cell name i (c ∷ cs) =
    let rest = find_cell name (i + 1) cs in if is_used c && str_eq c.name name then some i else rest

-- The first cell that is not in use.
pub free_cell : ℕ → List Entry → Option ℕ
free_cell i [] = none
free_cell i (c ∷ cs) = let rest = free_cell (i + 1) cs in if is_used c then rest else some i

abbrev pub named : List ℕ → Entry → Entry
named name c = record c { name = take (max_name - 1) name }

pub make_cell : List ℕ → List Entry → Option ℕ × List Entry
make_cell name cs = elim (free_cell 0 cs) [
  | none ↦ (none, cs)
  | some i ↦ (some i, on_cell i (named name) cs)
]

abbrev pub char_ok : ℕ → Bool
char_ok ch =
    leb b'A' ch && leb ch b'Z'
    || leb b'a' ch && leb ch b'z'
    || leb b'0' ch && leb ch b'9'
    || ch == b'_'
    || ch == b'.'
    || ch == b'-'

pub name_ok : List ℕ → Bool
name_ok name = not (length name == 0) && all char_ok name && ltb (length name) max_name

-- The cell of that name, made if need be.
pub find_or_make : List ℕ → List Entry → Option ℕ × List Entry
find_or_make name cs = elim (find_cell name 0 cs) [
  | none ↦ make_cell name cs
  | some i ↦ (some i, cs)
]

-- Only a writer makes a cell; the status is that of a failure.
pub cell_for : Bool → List ℕ → List Entry → Status × Option ℕ × List Entry
cell_for writing name cs =
    if writing
    then (no_memory, (find_or_make name cs).0, (find_or_make name cs).1)
    else (not_found, find_cell name 0 cs, cs)

abbrev pub is_foreign : ℕ → Entry → Bool
is_foreign me c = not (c.reserved_by == 0) && not (c.reserved_by == me)

abbrev pub taken_by : ℕ → Entry → Entry
taken_by me c = record c { held = true; writer = me; last_writer = me; fault = 0 }

abbrev pub one_reader : Bool → Entry → Entry
one_reader reading c = record c {
  readers = if reading then (c.readers + 1) % 2 ^ 32 else c.readers;
}

-- The end of `pfm_open`, with the cell.
pub admit : ℕ → Bool → Bool → ℕ → List Entry → Status × Option PubPath × List Entry
admit i reading writing me cs = elim (get_elem? cs i) [
  | none ↦ (not_found, none, cs)
  | some c ↦ if writing && (is_foreign me c || c.held) then (busy, none, cs) else (
    ok,
    some (record { cell = some i; is_writer = writing; reading = reading }),
    on_cell i (λ e. one_reader reading (if writing then taken_by me e else e)) cs,
  )
]

abbrev pub admitted_at :
    Bool → Bool → ℕ → Status × Option ℕ × List Entry → Status × Option PubPath × List Entry
admitted_at reading writing me (failure, none, cs) = (failure, none, cs)
admitted_at reading writing me (failure, some i, cs) = admit i reading writing me cs

-- The device itself is its directory.
pub open_device : Bool → Bool → List Entry → Status × Option PubPath × List Entry
open_device reading true cs = (mode_error, none, cs)
open_device reading false cs =
    (ok, some (record { cell = none; is_writer = false; reading = reading }), cs)

-- `memory` says that the path's state could be allocated; `me` is the process that runs.
pub pfm_open : Bool → List ℕ → Bool → Bool → ℕ → List Entry → Status × Option PubPath × List Entry
pfm_open memory name reading writing me cs =
    if not memory
    then (no_memory, none, cs)
    else if length name == 0
    then open_device reading writing cs
    else if not (name_ok name)
    then (invalid, none, cs)
    else admitted_at reading writing me (cell_for writing name cs)

abbrev pub given_up : PubPath → Entry → Entry
given_up st c = record c {
  held = if st.is_writer then false else c.held;
  writer = if st.is_writer then 0 else c.writer;
  readers = if st.reading && ltb 0 c.readers then c.readers - 1 else c.readers;
}

pub pfm_close : PubPath → List Entry → List Entry
pfm_close st cs = elim st.cell [ none ↦ cs | some i ↦ on_cell i (given_up st) cs ]

-- The process that the cell belongs to, if it is another: 0 for none.
abbrev pub other_owner : ℕ → Entry → ℕ
other_owner pid c =
    let other =
      if is_foreign pid c
      then c.reserved_by
      else if c.held && not (c.writer == pid)
      then c.writer
      else 0 in
    if other == 0 && c.held && c.writer == 0 then 2 ^ 32 - 1 else other

abbrev pub declared_by : ℕ → List ℕ → Entry → Entry
declared_by pid meaning c = record c {
  reserved_by = pid;
  last_writer = pid;
  meaning = if length meaning == 0 then c.meaning else take (meaning_max - 1) meaning;
}

pub declare_at : ℕ → List ℕ → Option ℕ × List Entry → Status × List Entry
declare_at pid meaning (none, cs) = (no_memory, cs)
declare_at pid meaning (some i, cs) = elim (get_elem? cs i) [
  | none ↦ (no_memory, cs)
  | some c ↦
      if other_owner pid c == 0 then (ok, on_cell i (declared_by pid meaning) cs) else (busy, cs)
]

-- An empty `meaning` is NULL too.
pub pfm_reserve_writer : List ℕ → ℕ → List ℕ → List Entry → Status × List Entry
pfm_reserve_writer name pid meaning cs =
    if not (name_ok name) then (invalid, cs) else declare_at pid meaning (find_or_make name cs)

pub pfm_provided : List ℕ → List Entry → Bool
pfm_provided name cs =
    name_ok name && elim (find_cell name 0 cs) as (λ o. Bool) [ none ↦ false | some i ↦ true ]

abbrev pub empty_entry : Entry
empty_entry = record {
  name = [];
  held = false;
  writer = 0;
  readers = 0;
  reserved_by = 0;
  last_writer = 0;
  fault = 0;
  meaning = [];
  seq = 0;
}

pub pfm_remove : List ℕ → List Entry → Status × List Entry
pfm_remove name cs = elim (find_cell name 0 cs) [
  | none ↦ (not_found, cs)
  | some i ↦ elim (get_elem? cs i) [
    | none ↦ (not_found, cs)
    | some c ↦
        if c.held || ltb 0 c.readers || not (c.reserved_by == 0)
        then (busy, cs)
        else (ok, on_cell i (λ e. empty_entry) cs)
  ]
]

-- RV9_FAULT_DEADLINE and RV9_FAULT_RUNAWAY.
abbrev pub fault_deadline : ℕ
fault_deadline = 3

abbrev pub fault_runaway : ℕ
fault_runaway = 4

abbrev pub fault_shown : ℕ → ℕ
fault_shown fault = if fault == fault_runaway then fault_deadline else fault

-- One turn of the loop of `pfm_ended`.
pub ended_one : ℕ → ℕ → Entry → Entry
ended_one pid fault c =
    let free = record c { reserved_by = if c.reserved_by == pid then 0 else c.reserved_by } in
    if not (is_used c)
    then c
    else if not (c.last_writer == pid)
    then free
    else if fault == 0 || c.held || not (c.fault == 0)
    then record free { last_writer = 0 }
    else record free { last_writer = 0; fault = fault_shown fault; seq = (c.seq + 2) % 2 ^ 32 }

pub pfm_ended : ℕ → ℕ → List Entry → List Entry
pfm_ended pid fault cs = if pid == 0 then cs else map (ended_one pid fault) cs
