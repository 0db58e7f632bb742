-- ===== src/Pipe/Fifo.antt =====
-- pipefm.c: any number of readers and writers, their looks in any order.
use mathlib.Core.List.{append-nil, append_assoc}
use rv.Prelude.{ℕ, min, ◌≡◌, sym, ap, ap₂, ◌∙◌, List, [], ◌++◌, take, drop, take-append-drop}
use rv.Pipe.{Pipe, take_bytes, put_bytes}
use rv.Pipe.Ring.{IsValid, contents}
use rv.Pipe.Chunk.{take_bytes_lem, put_bytes_lem}

-- From `p` to `q` by looks under the lock, each the branch of a read that takes bytes or of a write
-- that puts some; `ins` and `outs` are what was put and taken, in order.
pub data Moves (p : Pipe) : Pipe → List ℕ → List ℕ → Type 0 where
  start : Moves p p [] []
  put :
      {q : Pipe} {ins outs : List ℕ} (left : List ℕ)
      → Moves p q ins outs
      → Moves p (put_bytes q left).1 (ins ++ take (put_bytes q left).0 left) outs
  took :
      {q : Pipe} {ins outs : List ℕ} (len : ℕ)
      → Moves p q ins outs
      → Moves p (take_bytes q len).1 ins (outs ++ (take_bytes q len).0)

-- A pipe is a queue. However the looks of its readers and writers are ordered, what was in the pipe
-- followed by what was put is what was taken followed by what is in it now: no byte is lost, made
-- up, or moved past another. The pipe stays valid throughout.
pub pipe_fifo :
    {p q : Pipe} {ins outs : List ℕ}
    → IsValid p
    → Moves p q ins outs
    → (contents p ++ ins ≡ outs ++ contents q) × IsValid q
pipe_fifo {p = p} v start = (append-nil (contents p), v)
pipe_fifo {p = p} v (put {q = q} {ins = ins} {outs = outs} left m) =
    let (e, w) = pipe_fifo v m in
    let (a, b, d) = put_bytes_lem q left w in
    (
      sym (append_assoc (contents p) ins (take (put_bytes q left).0 left))
          ∙ (ap (λ l. l ++ take (put_bytes q left).0 left) e
              ∙ (append_assoc outs (contents q) (take (put_bytes q left).0 left)
                  ∙ ap (◌++◌ outs) (sym b))),
      d,
    )
pipe_fifo {p = p} v (took {q = q} {ins = ins} {outs = outs} len m) =
    let (e, w) = pipe_fifo v m in
    let (a, b, d) = take_bytes_lem q len w in
    let n = min q.count len in
    (
      e
          ∙ (ap (◌++◌ outs) (sym (take-append-drop n (contents q)))
              ∙ (sym (append_assoc outs (take n (contents q)) (drop n (contents q)))
                  ∙ ap₂ (λ x y. (outs ++ x) ++ y) (sym a) (sym b))),
      d,
    )
