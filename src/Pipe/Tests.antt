-- ===== src/Pipe/Tests.antt =====
-- pipefm.c: what a pipe does on concrete bytes.
use rv.Prelude.{ℕ, min, ◌≡◌, refl, true, false, List, [], ◌∷◌, ◌++◌, arith, length, take, drop}
use rv.Pipe.{Pipe, PipePath, take_bytes, put_bytes, write_loop, pipe_write}
use rv.Pipe.Ring.{IsValid, contents}
use rv.Pipe.Chunk.{take_bytes_lem, put_bytes_lem}
use rv.Pipe.Loop.{Delivers, idle, pipe_write_all}
use rv.Pipe.Fifo.{start, put, took, pipe_fifo}

abbrev name_a : List ℕ
name_a = b'a' ∷ []

-- A pipe of four bytes that holds 7 and 8, the second of them past the end of the buffer.
abbrev two_bytes : Pipe
two_bytes = record {
  name = name_a;
  in_use = true;
  head = 3;
  tail = 1;
  count = 2;
  capacity = 4;
  readers = 0;
  writers = 1;
  seen_writer = true;
  warned_no_reader = false;
  store = 8 ∷ 0 ∷ 0 ∷ 7 ∷ [];
}

-- The same pipe once its bytes are taken and its writer is gone.
abbrev drained : Pipe
drained = record two_bytes { head = 1; count = 0; writers = 0 }

abbrev reader : PipePath
reader = record { pipe = 0; reading = true; writing = false }

abbrev writer : PipePath
writer = record { pipe = 0; reading = false; writing = true }

two_bytes-IsValid : IsValid two_bytes
two_bytes-IsValid = record {
  capacity_pos = ground arith;
  small = ground arith;
  fits = ground arith;
  head_in = ground arith;
  count_in = ground arith;
  tail_at = refl;
}

pipe_fifo_example :
    let q = (put_bytes two_bytes (9 ∷ [])).1 in
    let (bytes, q') = take_bytes q 2 in
    (contents two_bytes ++ 9 ∷ [] ≡ bytes ++ contents q') × IsValid q'
unfolding put_bytes
pipe_fifo_example = pipe_fifo two_bytes-IsValid (took 2 (put (9 ∷ []) start))

take_bytes_lem_example :
    let (bytes, p') = take_bytes two_bytes 5 in
    (bytes ≡ take 2 (contents two_bytes)) × (contents p' ≡ drop 2 (contents two_bytes)) × IsValid p'
take_bytes_lem_example = take_bytes_lem two_bytes 5 two_bytes-IsValid

put_bytes_lem_example :
    let (n, p') = put_bytes two_bytes (1 ∷ 2 ∷ 3 ∷ []) in
    (n ≡ min 3 2) × (contents p' ≡ contents two_bytes ++ take n (1 ∷ 2 ∷ 3 ∷ [])) × IsValid p'
put_bytes_lem_example = put_bytes_lem two_bytes (1 ∷ 2 ∷ 3 ∷ []) two_bytes-IsValid

abbrev five_six : List ℕ
five_six = 5 ∷ 6 ∷ []

pipe_write_all_example :
    (2 ≡ length five_six)
    × Delivers five_six two_bytes (idle ∷ []) (put_bytes two_bytes (5 ∷ 6 ∷ [])).1
unfolding pipe_write write_loop put_bytes
pipe_write_all_example =
    pipe_write_all writer five_six two_bytes (idle ∷ []) 2 (put_bytes two_bytes (5 ∷ 6 ∷ [])).1
      two_bytes-IsValid ((λ p v. v), tt) refl
