-- ===== src/Pipe.antt =====
-- components/rv9_io/src/pipefm.c: a pipe is a path.
-- A pipe's buffer is a list of `capacity` bytes and a path names its pipe by its place in the
-- device's table. What runs while the lock is not held, between two looks of a read or a write, is
-- a list of turns: how the other processes changed the pipe, and whether this task was cancelled.
pub mod Ring
pub mod Chunk
pub mod Loop
pub mod Fifo
pub mod Open
mod Tests
use rv.Prelude.{
  ℕ, zero, suc, ◌+◌, ◌-◌, ◌%◌, ◌^◌, Bool, true, not, ◌&&◌, ◌||◌, List, [], ◌∷◌, ◌++◌, ltb, ◌==◌,
  if◌then◌else◌, length, get_or, set, take, drop,
}

-- PIPE_NAME_MAX.
abbrev pub name_max : ℕ
name_max = 16

-- `pipe_t`.
pub record Pipe : Type 0 where
  pub name : List ℕ
  pub in_use : Bool
  pub head : ℕ
  pub tail : ℕ
  pub count : ℕ
  pub capacity : ℕ
  pub readers : ℕ
  pub writers : ℕ
  pub seen_writer : Bool
  pub warned_no_reader : Bool
  pub store : List ℕ

-- `pipe_path_t`.
pub record PipePath : Type 0 where
  pub pipe : ℕ
  pub reading : Bool
  pub writing : Bool

pub data Status : Type 0 where
  ok io invalid no_memory no_paths wrong_mode unsupported : Status

-- `memcpy` out of the buffer, from offset `at`.
pub copy_out : List ℕ → ℕ → ℕ → List ℕ
copy_out store at zero = []
copy_out store at (suc n) = get_or store at 0 ∷ copy_out store (at + 1) n

-- `memcpy` into the buffer.
pub copy_in : List ℕ → ℕ → List ℕ → List ℕ
copy_in store at [] = store
copy_in store at (b ∷ bs) = copy_in (set store at b) (at + 1) bs

-- `if (x > y) x = y`.
abbrev pub at_most : ℕ → ℕ → ℕ
at_most x y = if ltb y x then y else x

-- The branch of `pipe_read` where `p->count > 0`, once `n` is chosen: the bytes, copied up to the
-- end of the buffer and then from the start again, and the pipe afterwards.
pub take_n : Pipe → ℕ → List ℕ × Pipe
take_n p n =
    let first = at_most (p.capacity - p.head) n in
    let bytes =
      copy_out p.store p.head first
      ++ (if ltb first n then copy_out p.store 0 (n - first) else []) in
    (bytes, record p { head = (p.head + n) % 2 ^ 32 % p.capacity; count = p.count - n })

pub take_bytes : Pipe → ℕ → List ℕ × Pipe
take_bytes p len = take_n p (if ltb p.count len then p.count else len)

-- One look of `pipe_read` under the lock.
pub data Look : Type 0 where
  got : List ℕ → Pipe → Look
  finished : Look
  nothing_yet : Look

abbrev pub looked : List ℕ × Pipe → Look
looked (bytes, p) = got bytes p

pub read_look : Pipe → ℕ → Look
read_look p len =
    if ltb 0 p.count
    then looked (take_bytes p len)
    else if p.writers == 0 && p.seen_writer
    then finished
    else nothing_yet

-- What happens while a call sleeps or has let go of the lock.
pub record Turn : Type 0 where
  pub cancelled : Bool
  pub others : Pipe → Pipe

-- How a call ends: its status with what it moved, or still waiting when the turns run out.
pub data Outcome (A : Type 0) : Type 0 where
  returns : Status → A → Pipe → Outcome A
  waiting : A → Pipe → Outcome A

-- The loop of `pipe_read`.
pub read_loop : ℕ → Pipe → List Turn → Outcome (List ℕ)
read_loop len p [] = elim (read_look p len) [
  | got bytes p' ↦ returns ok bytes p'
  | finished ↦ returns ok [] p
  | nothing_yet ↦ waiting [] p
]
read_loop len p (t ∷ ts) =
    let rest = read_loop len (t.others p) ts in
    elim (read_look p len) [
      | got bytes p' ↦ returns ok bytes p'
      | finished ↦ returns ok [] p
      | nothing_yet ↦ if t.cancelled then returns io [] p else rest
    ]

-- `has_buf` says that `buf` is not NULL.
pub pipe_read : PipePath → Bool → ℕ → Pipe → List Turn → Outcome (List ℕ)
pipe_read st has_buf len p ts =
    if not has_buf
    then returns invalid [] p
    else if not st.reading
    then returns wrong_mode [] p
    else if len == 0
    then returns ok [] p
    else read_loop len p ts

-- The branch of `pipe_write` where there is room, once `n` is chosen.
pub put_n : Pipe → List ℕ → ℕ → Pipe
put_n p left n =
    let first = at_most (p.capacity - p.tail) n in
    let store =
      (if ltb first n
        then copy_in (copy_in p.store p.tail (take first left)) 0
            (take (n - first) (drop first left))
        else copy_in p.store p.tail (take first left)) in
    record p { tail = (p.tail + n) % 2 ^ 32 % p.capacity; count = p.count + n; store = store }

-- How many of the bytes left were put, and the pipe afterwards.
pub put_bytes : Pipe → List ℕ → ℕ × Pipe
put_bytes p left = let n = at_most (length left) (p.capacity - p.count) in (n, put_n p left n)

-- The loop of `pipe_write`: `written` bytes are in, and `left` remain. A round takes a turn, since
-- the lock is let go after each.
pub write_loop : List ℕ → ℕ → Pipe → List Turn → Outcome ℕ
write_loop left written p [] = if length left == 0 then returns ok written p else waiting written p
write_loop left written p (t ∷ ts) =
    let (n, p') = put_bytes p left in
    let more = write_loop (drop n left) (written + n) (t.others p') ts in
    let again = write_loop left written (t.others p) ts in
    if length left == 0
    then returns ok written p
    else if ltb 0 (p.capacity - p.count)
    then more
    else if p.readers == 0
    then returns io written (record p { warned_no_reader = true })
    else if t.cancelled
    then returns io written p
    else again

pub pipe_write : PipePath → Bool → List ℕ → Pipe → List Turn → Outcome ℕ
pipe_write st has_buf src p ts =
    if not has_buf
    then returns invalid 0 p
    else if not st.writing
    then returns wrong_mode 0 p
    else if length src == 0
    then returns ok 0 p
    else write_loop src 0 p ts

-- RV9_GS_READY: whether a read would not wait.
pub getstat_ready : Pipe → Bool
getstat_ready p = ltb 0 p.count || p.writers == 0 && p.seen_writer
