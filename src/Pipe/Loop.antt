-- ===== src/Pipe/Loop.antt =====
-- pipefm.c: whole reads and writes, with the other processes running in between.
use mathlib.Core.List.{append-nil}
use rv.Prelude.{
  ℕ, zero, suc, ◌+◌, ◌-◌, ◌≤◌, ◌<◌, min, ◌≡◌, refl, sym, ap, subst, ◌∙◌, inl, inr, true, false,
  ◌&&◌, List, [], ◌∷◌, ◌++◌, arith, ltb, ◌==◌, if◌then◌else◌, Bool-cases, length, take, drop,
  length-take, length-drop, take_all, take_zero,
}
use rv.Pipe.{
  Pipe, PipePath, Turn, ok, io, returns, waiting, at_most, take_bytes, read_look, read_loop,
  pipe_read, put_n, put_bytes, write_loop, pipe_write,
}
use rv.Pipe.Ring.{IsValid, contents}
use rv.Pipe.Chunk.{take_bytes_lem, put_bytes_lem}

-- A turn in which the pipe is left alone, as when nobody else runs.
abbrev pub idle : Turn
idle = record { cancelled = false; others = λ p. p }

-- A pipe that holds bytes is read at the first look: the call returns the oldest ones, as many as
-- are there and wanted, whatever would happen later; it takes exactly these out of the pipe.
pub pipe_read_ready :
    (st : PipePath) (len : ℕ) (p : Pipe) (ts : List Turn)
    → IsValid p
    → st.reading ≡ true
    → 0 < len
    → 0 < p.count
    → (p' : Pipe) × (pipe_read st true len p ts
        ≡ returns ok (take (min p.count len) (contents p)) p')
      × (contents p' ≡ drop (min p.count len) (contents p))
      × IsValid p'
unfolding pipe_read read_loop read_look
pipe_read_ready st len p [] v r l c =
    let (a, b, d) = take_bytes_lem p len v in ((take_bytes p len).1, ground arith, b, d)
pipe_read_ready st len p (t ∷ ts) v r l c =
    let (a, b, d) = take_bytes_lem p len v in ((take_bytes p len).1, ground arith, b, d)

-- A read of an empty pipe ends with no bytes, the end of the file, if the pipe has had a writer and
-- has none now. Otherwise, as with a pipe that no writer has opened yet, the call is still waiting
-- after a turn in which nothing happens.
pub pipe_read_empty :
    (st : PipePath) (len : ℕ) (p : Pipe)
    → st.reading ≡ true
    → 0 < len
    → p.count ≡ 0
    → pipe_read st true len p (idle ∷ [])
      ≡ (if p.writers == 0 && p.seen_writer then returns ok [] p else waiting [] p)
unfolding pipe_read read_loop read_look
pipe_read_empty st len p r l c = ground arith

-- In each of the turns the other processes leave a valid pipe valid.
abbrev pub AllKeepValid : List Turn → Type 0
AllKeepValid [] = Unit
AllKeepValid (t ∷ ts) = ((p : Pipe) → IsValid p → IsValid (t.others p)) × AllKeepValid ts

-- How the bytes `src` come into a pipe, from `p` to `p'`, over turns in which the other processes have
-- the pipe: a round appends the next bytes to what the pipe holds, or waits while it is full.
pub data Delivers : List ℕ → Pipe → List Turn → Pipe → Type 0 where
  delivered : (p : Pipe) (ts : List Turn) → Delivers [] p ts p
  puts :
      (piece rest : List ℕ) (p q p' : Pipe) (t : Turn) (ts : List Turn)
      → 0 < length piece
      → contents q ≡ contents p ++ piece
      → IsValid q
      → Delivers rest (t.others q) ts p'
      → Delivers (piece ++ rest) p (t ∷ ts) p'
  waits :
      (src : List ℕ) (p p' : Pipe) (t : Turn) (ts : List Turn)
      → p.count ≡ p.capacity
      → Delivers src (t.others p) ts p'
      → Delivers src p (t ∷ ts) p'

take-drop_append : (n : ℕ) (xs : List ℕ) → take n xs ++ drop n xs ≡ xs
take-drop_append zero xs = refl
take-drop_append (suc n) [] = refl
take-drop_append (suc n) (x ∷ xs) = ap (◌∷◌ x) (take-drop_append n xs)

length-zero : (xs : List ℕ) → length xs ≡ 0 → xs ≡ []
length-zero [] e = refl
length-zero (x ∷ xs) e = absurd (omega (arith, e))

write_loop-Delivers :
    (left : List ℕ) (written : ℕ) (p : Pipe) (ts : List Turn) (w : ℕ) (p' : Pipe)
    → IsValid p
    → AllKeepValid ts
    → write_loop left written p ts ≡ returns ok w p'
    → (w ≡ written + length left) × Delivers left p ts p'
unfolding write_loop put_bytes
write_loop-Delivers left written p [] w p' v keep h = elim (Bool-cases (length left == 0)) [
  | inl done ↦
      let none_left : left ≡ [] = length-zero left (ground (arith, done)) in
      let same : p ≡ p' = ground (arith, h, done) in
      (ground (arith, h, done), rw (none_left, sym same) (delivered p []))
  | inr more ↦ absurd (ground (arith, h, more))
]
write_loop-Delivers left written p (t ∷ ts) w p' v keep h =
    let n = at_most (length left) (p.capacity - p.count) in
    elim (Bool-cases (length left == 0)) [
      | inl done ↦
          let none_left : left ≡ [] = length-zero left (ground (arith, done)) in
          let same : p ≡ p' = ground (arith, h, done) in
          (ground (arith, h, done), rw (none_left, sym same) (delivered p (t ∷ ts)))
      | inr more ↦ elim (Bool-cases (ltb 0 (p.capacity - p.count))) [
        | inl room ↦
            let (a, put, valid) = put_bytes_lem p left v in
            let q = put_n p left n in
            let h' : write_loop (drop n left) (written + n) (t.others q) ts ≡ returns ok w p' =
              ground (arith, h, more, room) in
            let (sum, rest) =
              write_loop-Delivers (drop n left) (written + n) (t.others q) ts w p' (keep.0 q valid)
                keep.1 h' in
            (
              ground (arith, sum, length-drop n left),
              subst (λ l. Delivers l p (t ∷ ts) p') (take-drop_append n left)
                  (puts (take n left) (drop n left) p q p' t ts
                    (ground (arith, more, room, length-take n left)) put valid rest),
            )
        | inr full ↦
            let h' : write_loop left written (t.others p) ts ≡ returns ok w p' =
              ground (arith, h, more, full) in
            let (sum, rest) =
              write_loop-Delivers left written (t.others p) ts w p' (keep.0 p v) keep.1 h' in
            (sum, waits left p p' t ts (ground (arith, full, v.count_in)) rest)
      ]
    ]

-- A write to a valid pipe that says it succeeded has put exactly its bytes, in order, however many
-- rounds it took and whatever the other processes did in between, as long as they leave the pipe
-- valid: it reports the length of what it was given, and that is delivered in pieces that follow one
-- another, each appended in one round to what the pipe then held; in every other round the pipe was
-- full.
pub pipe_write_all :
    (st : PipePath) (src : List ℕ) (p : Pipe) (ts : List Turn) (w : ℕ) (p' : Pipe)
    → IsValid p
    → AllKeepValid ts
    → pipe_write st true src p ts ≡ returns ok w p'
    → (w ≡ length src) × Delivers src p ts p'
unfolding pipe_write
pipe_write_all st src p ts w p' v keep h = elim (Bool-cases (length src == 0)) [
  | inl empty ↦
      let nothing : src ≡ [] = length-zero src (ground (arith, empty)) in
      let same : p ≡ p' = ground (arith, h, empty) in
      (ground (arith, h, empty), rw (nothing, sym same) (delivered p ts))
  | inr some_left ↦
      let (sum, d) = write_loop-Delivers src 0 p ts w p' v keep (ground (arith, h, some_left)) in
      (omega (arith, sum), d)
]

-- A write that fits is done in one round: it returns success with its length, and the pipe holds
-- what it held followed by the bytes.
pub pipe_write_fits :
    (st : PipePath) (src : List ℕ) (p : Pipe)
    → IsValid p
    → st.writing ≡ true
    → 0 < length src
    → p.count + length src ≤ p.capacity
    → (p' : Pipe) × (pipe_write st true src p (idle ∷ []) ≡ returns ok (length src) p')
      × (contents p' ≡ contents p ++ src)
      × IsValid p'
unfolding pipe_write write_loop put_bytes
pipe_write_fits st src p v w l room =
    let n = at_most (length src) (p.capacity - p.count) in
    let e : n ≡ length src = ground arith in
    let (a, b, d) = put_bytes_lem p src v in
    let whole : take n src ≡ src = take_all n src (omega arith) in
    (put_n p src n, ground (arith, length-drop n src), b ∙ ap (◌++◌ (contents p)) whole, d)

write_loop_room :
    (left : List ℕ) (written : ℕ) (p : Pipe) (t : Turn) (ts : List Turn)
    → 0 < length left
    → p.count < p.capacity
    → let (n, p') = put_bytes p left in
      write_loop left written p (t ∷ ts) ≡ write_loop (drop n left) (written + n) (t.others p') ts
unfolding write_loop
write_loop_room left written p t ts l room = ground arith

write_loop_full :
    (left : List ℕ) (written : ℕ) (p : Pipe) (t : Turn) (ts : List Turn)
    → 0 < length left
    → p.capacity ≤ p.count
    → p.readers ≡ 0
    → write_loop left written p (t ∷ ts) ≡ returns io written (record p { warned_no_reader = true })
unfolding write_loop
write_loop_full left written p t ts l full r = ground arith

write_loop_abandoned :
    (src : List ℕ) (p : Pipe) (ts : List Turn)
    → IsValid p
    → p.readers ≡ 0
    → p.capacity < p.count + length src
    → (p' : Pipe) × (write_loop src 0 p (idle ∷ idle ∷ ts) ≡ returns io (p.capacity - p.count) p')
      × (contents p' ≡ contents p ++ take (p.capacity - p.count) src)
      × (p'.warned_no_reader ≡ true)
unfolding put_bytes put_n
write_loop_abandoned src p ts v r over = elim (Bool-cases (ltb 0 (p.capacity - p.count))) [
  | inr full ↦
      let none_left : p.capacity - p.count ≡ 0 = ground arith in
      (
        record p { warned_no_reader = true },
        write_loop_full src 0 p idle (idle ∷ ts) (omega arith) (omega arith) r
            ∙ ap (λ n. returns io n (record p { warned_no_reader = true })) (sym none_left),
        rw (take_zero (p.capacity - p.count) src none_left) (sym (append-nil (contents p))),
        refl,
      )
  | inl room ↦
      let n = at_most (length src) (p.capacity - p.count) in
      let e : n ≡ p.capacity - p.count = ground arith in
      let (a, b, d) = put_bytes_lem p src v in
      (
        record (put_n p src n) { warned_no_reader = true },
        write_loop_room src 0 p idle (idle ∷ ts) (omega arith) (ground arith)
            ∙ (write_loop_full (drop n src) (0 + n) (put_n p src n) idle ts
                  (omega (arith, length-drop n src, e)) (omega (arith, e)) r
                ∙ ap (λ k. returns io k (record (put_n p src n) { warned_no_reader = true }))
                    (omega (arith, e))),
        b ∙ ap (λ k. contents p ++ take k src) e,
        refl,
      )
]

-- A write that does not fit, with nobody reading, puts what fits and then fails, and says how much
-- it put: it does not wait for a reader that is not coming.
pub pipe_write_abandoned :
    (st : PipePath) (src : List ℕ) (p : Pipe) (ts : List Turn)
    → IsValid p
    → st.writing ≡ true
    → p.readers ≡ 0
    → p.capacity < p.count + length src
    → (p' : Pipe) × (pipe_write st true src p (idle ∷ idle ∷ ts)
        ≡ returns io (p.capacity - p.count) p')
      × (contents p' ≡ contents p ++ take (p.capacity - p.count) src)
      × (p'.warned_no_reader ≡ true)
unfolding pipe_write
pipe_write_abandoned st src p ts v w r over =
    let (p', a, b, d) = write_loop_abandoned src p ts v r over in (p', ground arith, b, d)
