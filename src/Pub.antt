-- ===== src/Pub.antt =====
-- components/rv9_io/src/pfm.c: published cells, written by one process and read by any number while
-- it writes.
-- The writer's part of `pfm_write` is cut into its stores, and a read into its loads; what the writer
-- does before each load of the read is a schedule. Stores are seen in the order of the program, which
-- is what the fences of the source ask for.
pub mod Stores
pub mod Cells
pub mod Coherence
pub mod Moments
pub mod Read
pub mod Return
mod Tests
use rv.Prelude.{
  ℕ, zero, suc, ◌+◌, ◌-◌, ◌/◌, ◌%◌, ◌^◌, Bool, not, ◌||◌, Option, none, some, List, [], ◌∷◌, ltb,
  ◌==◌, if◌then◌else◌, length, get_or, set, take,
}

-- What `pfm_write` and `pfm_read` use of `pub_cell_t`; `value` has the `cap` bytes that follow it.
pub record Cell : Type 0 where
  pub cap : ℕ
  pub torn : ℕ
  pub seq : ℕ
  pub len : ℕ
  pub stamp_us : ℕ
  pub value : List ℕ

-- PFM_MAX_TRIES, and the bytes of `rv9_pub_t`.
abbrev pub max_tries : ℕ
max_tries = 8

abbrev pub head_size : ℕ
head_size = 16

-- The value and the moment that one call of `pfm_write` publishes.
pub record Publication : Type 0 where
  pub bytes : List ℕ
  pub stamp : ℕ

pub data Admitted : Type 0 where
  wrong_mode invalid : Admitted
  publishes : Publication → Admitted

-- The checks of `pfm_write`: the head's `len` and `stamp_us`, the bytes that follow the head, the
-- length of the buffer and the time.
pub write_admitted : Bool → ℕ → ℕ → ℕ → List ℕ → ℕ → Cell → Admitted
write_admitted is_writer len head_len head_stamp payload now c =
    let avail = (len - head_size) % 2 ^ 32 in
    let vlen = if head_len == 0 then avail else head_len in
    if not is_writer
    then wrong_mode
    else if ltb len head_size
    then invalid
    else if ltb avail vlen || ltb c.cap vlen
    then invalid
    else publishes
        (record { bytes = take vlen payload; stamp = if head_stamp == 0 then now else head_stamp })

-- How far the stores of a publication have got.
pub data Phase : Type 0 where
  idle : Phase
  copying : Publication → ℕ → Phase
  sized : Publication → Phase
  stamped : Publication → Phase

-- The writer with its cell. Two counts follow it: how often it has stored `seq`, and what it last
-- finished publishing.
pub record Writer : Type 0 where
  pub phase : Phase
  pub cell : Cell
  pub stores : ℕ
  pub last : Option Publication

-- `c->seq` goes up by one.
abbrev pub next_seq : Cell → Cell
next_seq c = record c { seq = (c.seq + 1) % 2 ^ 32 }

abbrev pub set_byte : ℕ → ℕ → Cell → Cell
set_byte n b c = record c { value = set c.value n b }

-- One store, by the phase; between publications the next one is begun, if there is one.
pub store_at : Phase → Option Publication → Writer → Writer
store_at idle none w = w
store_at idle (some p) w = record w {
  phase = copying p 0;
  cell = next_seq w.cell;
  stores = w.stores + 1;
}
store_at (copying p n) next w =
    if ltb n (length p.bytes)
    then record w { phase = copying p (n + 1); cell = set_byte n (get_or p.bytes n 0) w.cell }
    else record w { phase = sized p; cell = record w.cell { len = length p.bytes } }
store_at (sized p) next w = record w {
  phase = stamped p;
  cell = record w.cell { stamp_us = p.stamp };
}
store_at (stamped p) next w = record w {
  phase = idle;
  cell = next_seq w.cell;
  stores = w.stores + 1;
  last = some p;
}

pub store_next : Option Publication → Writer → Writer
store_next next w = store_at w.phase next w

pub run : List (Option Publication) → Writer → Writer
run [] w = w
run (next ∷ nexts) w = run nexts (store_next next w)

-- What the writer does before the load at each time.
abbrev pub Schedule : Type 0
Schedule = ℕ → List (Option Publication)

pub record Snapshot : Type 0 where
  pub seq : ℕ
  pub len : ℕ
  pub stamp : ℕ
  pub bytes : List ℕ

-- `memcpy` out of the cell, a byte at a time; the time and the writer afterwards.
pub load_bytes : Schedule → ℕ → ℕ → ℕ → Writer → List ℕ × ℕ × Writer
load_bytes sched zero j t w = ([], t, w)
load_bytes sched (suc n) j t w =
    let w' = run (sched t) w in
    let (bytes, t', w'') = load_bytes sched n (j + 1) (t + 1) w' in
    (get_or w'.cell.value j 0 ∷ bytes, t', w'')

abbrev pub at_most : ℕ → ℕ → ℕ
at_most room len = if ltb len room then len else room

-- From the load of `len` to the second of `seq`; `w` is the writer at the first.
pub load_rest : Schedule → ℕ → ℕ → Writer → Option Snapshot × ℕ × Writer
load_rest sched room t w =
    let before = w.cell.seq in
    let w1 = run (sched t) w in
    let w2 = run (sched (t + 1)) w1 in
    let (bytes, t', w3) = load_bytes sched (at_most room w1.cell.len) 0 (t + 2) w2 in
    let w4 = run (sched t') w3 in
    (
      if w4.cell.seq == before
          then some (record {
            seq = before / 2;
            len = w1.cell.len;
            stamp = w2.cell.stamp_us;
            bytes = bytes;
          })
          else none,
      t' + 1,
      w4,
    )

-- One try of the loop of `pfm_read`.
pub try_read : Schedule → ℕ → ℕ → Writer → Option Snapshot × ℕ × Writer
try_read sched room t w =
    let w' = run (sched t) w in
    if w'.cell.seq % 2 == 1 then (none, t + 1, w') else load_rest sched room (t + 1) w'

pub read_tries : Schedule → ℕ → ℕ → ℕ → Writer → Option Snapshot × Writer
read_tries sched room zero t w = (none, w)
read_tries sched room (suc tries) t w =
    let (got, t', w') = try_read sched room t w in
    let again = read_tries sched room tries t' w' in
    elim got [ none ↦ again | some s ↦ (some s, w') ]

abbrev pub counted : Option Snapshot × Writer → Option Snapshot × Writer
counted (none, w) = (none, record w { cell = record w.cell { torn = (w.cell.torn + 1) % 2 ^ 32 } })
counted (some s, w) = (some s, w)

-- `pfm_read` of a cell into a buffer with `room` bytes after the head; none is WOULDBLOCK.
pub pfm_read : Schedule → ℕ → Writer → Option Snapshot × Writer
pfm_read sched room w = counted (read_tries sched room max_tries 0 w)
