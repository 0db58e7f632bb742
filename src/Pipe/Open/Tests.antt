-- ===== src/Pipe/Open/Tests.antt =====
-- pipefm.c: opening and closing the ends of a concrete pipe.
use rv.Prelude.{ℕ, ◌≡◌, refl, true, false, none, some, List, [], ◌∷◌, arith, str_eq, get_elem?}
use rv.Pipe.{Pipe, PipePath, wrong_mode}
use rv.Pipe.Open.{find, free_slot, update, made, find_or_make, attach, opened, pipe_open}
use rv.Pipe.Open.Named.{pipe_open_same}
use rv.Pipe.Open.Live.{pipe_open_leaks}

abbrev name_a : List ℕ
name_a = b'a' ∷ []

abbrev unused : Pipe
unused = record {
  name = name_a;
  in_use = false;
  head = 0;
  tail = 0;
  count = 0;
  capacity = 4;
  readers = 0;
  writers = 0;
  seen_writer = false;
  warned_no_reader = false;
  store = 0 ∷ 0 ∷ 0 ∷ 0 ∷ [];
}

abbrev written : Pipe
written = record unused { in_use = true; tail = 1; count = 1; writers = 1; seen_writer = true }

abbrev reader : PipePath
reader = record { pipe = 0; reading = true; writing = false }

abbrev writer : PipePath
writer = record { pipe = 0; reading = false; writing = true }

-- Between the two opens another name takes the second slot, and a third finds none.
pipe_open_same_example : reader.pipe ≡ writer.pipe
unfolding pipe_open find_or_make find free_slot update made opened str_eq attach
pipe_open_same_example =
    pipe_open_same name_a 1 2 true true
      ((some (b'b' ∷ []), 1, true) ∷ (some (b'c' ∷ []), 1, true) ∷ []) (unused ∷ unused ∷ []) reader
      writer refl refl

pipe_open_leaks_example :
    (p : Pipe) × (pipe_open (some name_a) 0 true (unused ∷ [])
      ≡ (wrong_mode, none, update 0 (made name_a) (unused ∷ [])))
    × (get_elem? (update 0 (made name_a) (unused ∷ [])) 0 ≡ some p)
    × (p.in_use ≡ true)
    × (p.readers ≡ 0)
    × (p.writers ≡ 0)
unfolding find free_slot
pipe_open_leaks_example =
    pipe_open_leaks name_a 0 0 (unused ∷ []) refl (omega arith) (omega arith) refl refl
