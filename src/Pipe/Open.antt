-- ===== src/Pipe/Open.antt =====
-- pipefm.c: opening and closing an end of a named pipe.
pub mod Named
pub mod Live
mod Tests
use rv.Prelude.{
  ℕ, zero, suc, ◌+◌, ◌-◌, ◌/◌, ◌%◌, ◌^◌, Bool, true, false, not, ◌&&◌, Option, none, some, List, [],
  ◌∷◌, ltb, ◌==◌, if◌then◌else◌, str_eq, length, take,
}
use rv.Pipe.{Pipe, PipePath, Status, ok, invalid, no_memory, no_paths, wrong_mode, name_max}

abbrev pub shift : Option ℕ → Option ℕ
shift none = none
shift (some i) = some (suc i)

-- `find`: the first pipe in use that has the name.
pub find : List ℕ → List Pipe → Option ℕ
find name [] = none
find name (p ∷ ps) = if p.in_use && str_eq p.name name then some 0 else shift (find name ps)

-- The loop of `make`: the first pipe that is not in use.
pub free_slot : List Pipe → Option ℕ
free_slot [] = none
free_slot (p ∷ ps) = if p.in_use then shift (free_slot ps) else some 0

-- A write through `&d->pipes[i]`.
pub update : ℕ → (Pipe → Pipe) → List Pipe → List Pipe
update i f [] = []
update zero f (p ∷ ps) = f p ∷ ps
update (suc i) f (p ∷ ps) = p ∷ update i f ps

-- What `make` does to the slot that it found.
pub made : List ℕ → Pipe → Pipe
made name p = record p {
  name = take (name_max - 1) name;
  in_use = true;
  head = 0;
  tail = 0;
  count = 0;
  readers = 0;
  writers = 0;
  seen_writer = false;
}

-- `find`, and failing that `make`: which pipe, and the table with it.
pub find_or_make : List ℕ → List Pipe → Option (ℕ × List Pipe)
find_or_make name ps = elim (find name ps) [
  | some i ↦ some (i, ps)
  | none ↦ elim (free_slot ps) [ some i ↦ some (i, update i (made name) ps) | none ↦ none ]
]

-- RV9_MODE_READ and RV9_MODE_WRITE are the two lowest bits.
abbrev pub wants_read : ℕ → Bool
wants_read mode = mode % 2 == 1

abbrev pub wants_write : ℕ → Bool
wants_write mode = mode / 2 % 2 == 1

pub attach : Bool → Bool → Pipe → Pipe
attach reading writing p = record p {
  readers = if reading then (p.readers + 1) % 2 ^ 32 else p.readers;
  writers = if writing then (p.writers + 1) % 2 ^ 32 else p.writers;
  seen_writer = if writing then true else p.seen_writer;
}

-- What follows once the pipe is known.
pub opened : ℕ → ℕ × List Pipe → Status × Option PipePath × List Pipe
opened mode (i, ps) =
    let reading = wants_read mode in
    let writing = wants_write mode in
    if not reading && not writing then (wrong_mode, none, ps) else (
      ok,
      some (record { pipe = i; reading = reading; writing = writing }),
      update i (attach reading writing) ps,
    )

-- The status, `path->fm_state`, and the table. A NULL `rest` is `none`; `mem` is whether
-- `rv9_calloc` returned memory for the path's state.
pub pipe_open : Option (List ℕ) → ℕ → Bool → List Pipe → Status × Option PipePath × List Pipe
pipe_open none mode mem ps = (invalid, none, ps)
pipe_open (some name) mode mem ps =
    if length name == 0
    then (invalid, none, ps)
    else if not (ltb (length name) name_max)
    then (invalid, none, ps)
    else if not mem
    then (no_memory, none, ps)
    else elim (find_or_make name ps) [
      | none ↦ (no_paths, none, ps)
      | some found ↦ opened mode found
    ]

-- `if (st->reading && p->readers > 0) p->readers--`, and so for the writers.
pub detach : PipePath → Pipe → Pipe
detach st p = record p {
  readers = if st.reading && ltb 0 p.readers then p.readers - 1 else p.readers;
  writers = if st.writing && ltb 0 p.writers then p.writers - 1 else p.writers;
}

-- Nobody left at either end: the name goes, and so does what was in the pipe.
pub emptied : Pipe → Pipe
emptied p =
    if p.readers == 0 && p.writers == 0
    then record p {
      in_use = false;
      seen_writer = false;
      warned_no_reader = false;
      head = 0;
      tail = 0;
      count = 0;
    }
    else p

abbrev pub left_by : PipePath → Pipe → Pipe
left_by st p = emptied (detach st p)

pub pipe_close : Option PipePath → List Pipe → List Pipe
pipe_close none ps = ps
pipe_close (some st) ps = update st.pipe (left_by st) ps
