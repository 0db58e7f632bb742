-- ===== src/Pub/Cells/Tests.antt =====
-- pfm.c: cells that are opened on concrete names.
use rv.Prelude.{ℕ, zero, suc, ◌≤◌, ◌≡◌, refl, true, false, Option, List, [], ◌∷◌, str_eq}
use rv.Pub.Cells.{
  Entry, PubPath, Status, on_cell, find_cell, free_cell, make_cell, name_ok, find_or_make, cell_for,
  admit, pfm_open, empty_entry,
}
use rv.Pub.Cells.Held.{writers, held_at}
use rv.Pub.Cells.Owner.{Reach, start, open_path, opened, Reach-one_writer}

abbrev two_free : List Entry
two_free = empty_entry ∷ empty_entry ∷ []

-- Process 7 opens a cell to write it, and process 8 the same one to read it.
abbrev speed : List ℕ
speed = b'v' ∷ []

abbrev first : Status × Option PubPath × List Entry
first = pfm_open true speed false true 7 two_free

abbrev second : Status × Option PubPath × List Entry
second = pfm_open true speed true false 8 first.2

abbrev paths : List PubPath
paths = opened second.1 (opened first.1 [])

none_held : (i : ℕ) → held_at i two_free ≡ 0
none_held zero = refl
none_held (suc zero) = refl
none_held (suc (suc i)) = refl

reached : Reach second.2 paths
reached =
    open_path true true false speed 8 first.2 (opened first.1 [])
      (open_path true false true speed 7 two_free [] (start two_free none_held))

Reach-one_writer_example : (writers 0 paths ≤ 1) × (held_at 0 second.2 ≡ writers 0 paths)
Reach-one_writer_example = Reach-one_writer second.2 paths 0 reached

-- The first does hold the cell.
one_writes : writers 0 paths ≡ 1
unfolding pfm_open cell_for find_or_make find_cell make_cell free_cell on_cell admit name_ok str_eq
one_writes = refl
