-- ===== src/Sched/Queue.antt =====
-- sched.c: queues of items of one size.
-- An item is the list of its bytes, and the storage a list of `capacity` items, so that a copy of
-- `item_size` bytes is the read or the write of an element. The turns of a call that may sleep are
-- those of Sched/Sync.antt.
pub mod Fifo
mod Tests
use rv.Prelude.{
  ℕ, ◌+◌, ◌-◌, ◌%◌, ◌^◌, Bool, true, false, ◌&&◌, ◌||◌, Option, none, some, List, [], ◌∷◌, ltb,
  ◌==◌, if◌then◌else◌, get_or, set,
}
use rv.Sched.Kernel.{Kernel, waitq_pop_best, pend_wake, block_end}
use rv.Sched.Sync.{Outcome, returns, asleep_yet, fall_asleep, caller, is_host, Turn, has_waiters}

abbrev pub Item : Type 0
Item = List ℕ

-- `rv9k_queue_t`; `not_empty` and `not_full` are the numbers of its wait queues.
pub record Queue : Type 0 where
  pub storage : List Item
  pub capacity : ℕ
  pub head : ℕ
  pub tail : ℕ
  pub count : ℕ
  pub not_empty : ℕ
  pub not_full : ℕ

pub queue_init : List Item → ℕ → ℕ → ℕ → Queue
queue_init storage capacity not_empty not_full = record {
  storage = storage;
  capacity = capacity;
  head = 0;
  tail = 0;
  count = 0;
  not_empty = not_empty;
  not_full = not_full;
}

-- The item goes in at the tail, where there is room.
pub put_item : Item → Queue → Queue
put_item item q = record q {
  storage = set q.storage q.tail item;
  tail = (q.tail + 1) % 2 ^ 32 % q.capacity;
  count = q.count + 1;
}

-- And comes out at the head.
pub take_item : Queue → Item × Queue
take_item q = (
  get_or q.storage q.head [],
  record q { head = (q.head + 1) % 2 ^ 32 % q.capacity; count = q.count - 1 },
)

pub queue_send : Item → ℕ → Option ℕ → Queue → Kernel → List (Turn Queue) → Outcome Bool Queue
queue_send item timeout_ms self q k [] =
    if ltb q.count q.capacity
    then returns true (put_item item q) (waitq_pop_best q.not_empty k).1
    else if timeout_ms == 0 || is_host self
    then returns false q k
    else asleep_yet q (fall_asleep q.not_full timeout_ms (caller self) k)
queue_send item timeout_ms self q k (turn ∷ turns) =
    let (q', k') = turn q (fall_asleep q.not_full timeout_ms (caller self) k) in
    let (given, awake) = block_end q.not_full (caller self) k' in
    let again = queue_send item timeout_ms self q' awake turns in
    if ltb q.count q.capacity
    then returns true (put_item item q) (waitq_pop_best q.not_empty k).1
    else if timeout_ms == 0 || is_host self
    then returns false q k
    else if given
    then again
    else returns false q' awake

-- What it returns, `*woken`, and the state afterwards.
pub queue_send_from_isr : Item → Queue → Kernel → Bool × Bool × Queue × Kernel
queue_send_from_isr item q k =
    let room = ltb q.count q.capacity in
    (
      room,
      has_waiters (k.queues q.not_empty) && room,
      if room then put_item item q else q,
      if room then pend_wake q.not_empty k else k,
    )

-- The item that it copies out, or none where it returns false.
pub queue_recv : ℕ → Option ℕ → Queue → Kernel → List (Turn Queue) → Outcome (Option Item) Queue
queue_recv timeout_ms self q k [] =
    if ltb 0 q.count
    then returns (some (take_item q).0) (take_item q).1 (waitq_pop_best q.not_full k).1
    else if timeout_ms == 0 || is_host self
    then returns none q k
    else asleep_yet q (fall_asleep q.not_empty timeout_ms (caller self) k)
queue_recv timeout_ms self q k (turn ∷ turns) =
    let (q', k') = turn q (fall_asleep q.not_empty timeout_ms (caller self) k) in
    let (given, awake) = block_end q.not_empty (caller self) k' in
    let again = queue_recv timeout_ms self q' awake turns in
    if ltb 0 q.count
    then returns (some (take_item q).0) (take_item q).1 (waitq_pop_best q.not_full k).1
    else if timeout_ms == 0 || is_host self
    then returns none q k
    else if given
    then again
    else returns none q' awake
