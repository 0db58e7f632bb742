-- ===== src/Sched/Queue/Tests.antt =====
-- sched.c: a queue on concrete items.
use rv.Prelude.{◌≡◌, refl, some, [], ◌∷◌, ◌++◌, arith}
use rv.Sched.Kernel.{waitq_pop_best}
use rv.Sched.Kernel.Samples.{calm}
use rv.Sched.Queue.{Queue, put_item, queue_send}
use rv.Sched.Queue.Fifo.{IsValid, Moves, start, sent, contents, queue_fifo}

-- A queue of two items that holds one, at the end of its storage.
abbrev one_item : Queue
one_item = record {
  storage = (1 ∷ []) ∷ (2 ∷ []) ∷ [];
  capacity = 2;
  head = 1;
  tail = 0;
  count = 1;
  not_empty = 3;
  not_full = 4;
}

one_item-IsValid : IsValid one_item
one_item-IsValid = record {
  capacity_pos = ground arith;
  small = ground arith;
  fits = ground arith;
  head_in = ground arith;
  count_in = ground arith;
  tail_at = refl;
}

moves : Moves one_item (put_item (9 ∷ []) one_item) ([] ++ (9 ∷ []) ∷ []) []
unfolding queue_send
moves =
    sent one_item (put_item (9 ∷ []) one_item) [] [] (9 ∷ []) 0 (some 0) calm
      (waitq_pop_best 3 calm).1 refl start

queue_fifo_example :
    (contents one_item ++ (9 ∷ []) ∷ [] ≡ [] ++ contents (put_item (9 ∷ []) one_item))
    × IsValid (put_item (9 ∷ []) one_item)
queue_fifo_example =
    queue_fifo one_item (put_item (9 ∷ []) one_item) ((9 ∷ []) ∷ []) [] one_item-IsValid moves
