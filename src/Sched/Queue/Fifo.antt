-- ===== src/Sched/Queue/Fifo.antt =====
-- sched.c: the order of the items in a queue.
use mathlib.Core.List.{append-nil, append_assoc}
use rv.Sched.Sync.{returns}
use rv.Sched.Kernel.{Kernel}
use rv.Prelude.{
  ℕ, suc, ◌+◌, ◌-◌, ◌%◌, ◌^◌, ◌≤◌, ◌<◌, ◌≡◌, sym, ap, ◌∙◌, true, false, Option, none, some, List,
  [], ◌∷◌, ◌++◌, arith, length, get_or, set, length-set, adv, adv_in, adv-adv, mod_adv, adv_add,
  ring, ring-set_self,
}
use rv.Sched.Queue.{Queue, Item, put_item, take_item, queue_send, queue_send_from_isr, queue_recv}

-- The items that are present, oldest first.
abbrev pub contents : Queue → List Item
contents q = ring [] q.storage q.capacity q.head q.count

pub record IsValid (q : Queue) : Type 0 where
  pub capacity_pos : 0 < q.capacity
  pub small : q.capacity ≤ 2 ^ 31
  pub fits : q.capacity ≤ length q.storage
  pub head_in : q.head < q.capacity
  pub count_in : q.count ≤ q.capacity
  pub tail_at : q.tail ≡ adv q.capacity q.head q.count

put_item_lem :
    (item : Item) (q : Queue)
    → q.count < q.capacity
    → IsValid q
    → (contents (put_item item q) ≡ contents q ++ item ∷ []) × IsValid (put_item item q)
unfolding put_item
put_item_lem item q room v =
    let one : q.count + 1 ≡ suc q.count = omega arith in
    let tail_in : adv q.capacity q.head q.count < q.capacity =
      adv_in q.capacity q.head q.count v.head_in v.count_in in
    let next : (q.tail + 1) % 2 ^ 32 % q.capacity ≡ adv q.capacity q.head (q.count + 1) =
      ap (λ t. (t + 1) % 2 ^ 32 % q.capacity) v.tail_at
      ∙ mod_adv q.capacity (adv q.capacity q.head q.count) 1 tail_in v.capacity_pos v.small
      ∙ adv_add q.capacity q.head q.count 1 v.head_in (omega (arith, room)) in
    (
      ap (ring [] (set q.storage q.tail item) q.capacity q.head) one
          ∙ ring-set_self [] q.storage q.capacity q.head q.count item q.tail v.fits v.head_in room
              v.tail_at,
      record {
        capacity_pos = v.capacity_pos;
        small = v.small;
        fits = rw (length-set q.storage q.tail item) v.fits;
        head_in = v.head_in;
        count_in = ground arith;
        tail_at = next;
      },
    )

take_item_lem :
    (q : Queue)
    → 0 < q.count
    → IsValid q
    → (contents q ≡ (take_item q).0 ∷ contents (take_item q).1) × IsValid (take_item q).1
unfolding take_item
take_item_lem q some_there v =
    let one : q.count ≡ suc (q.count - 1) = omega (arith, some_there) in
    let next : (q.head + 1) % 2 ^ 32 % q.capacity ≡ adv q.capacity q.head 1 =
      mod_adv q.capacity q.head 1 v.head_in v.capacity_pos v.small in
    let rest : suc (q.count - 1) ≤ q.capacity = ground (arith, one, v.count_in) in
    (
      ap (ring [] q.storage q.capacity q.head) one
          ∙ ap (λ h. get_or q.storage q.head [] ∷ ring [] q.storage q.capacity h (q.count - 1))
              (sym next),
      record {
        capacity_pos = v.capacity_pos;
        small = v.small;
        fits = v.fits;
        head_in = rw next (adv_in q.capacity q.head 1 v.head_in v.capacity_pos);
        count_in = ground arith;
        tail_at =
            v.tail_at
            ∙ ap (adv q.capacity q.head) one
            ∙ sym (adv-adv q.capacity q.head (q.count - 1) v.head_in rest)
            ∙ ap (λ h. adv q.capacity h (q.count - 1)) (sym next);
      },
    )

-- From `p` to `q` by the looks that end calls; `ins` and `outs` are the items sent and received, in
-- order.
pub data Moves (p : Queue) : Queue → List Item → List Item → Type 0 where
  start : Moves p p [] []
  sent :
      (q q' : Queue) (ins outs : List Item) (item : Item) (timeout_ms : ℕ) (self : Option ℕ)
      (k k' : Kernel)
      → queue_send item timeout_ms self q k [] ≡ returns true q' k'
      → Moves p q ins outs
      → Moves p q' (ins ++ item ∷ []) outs
  not_sent :
      (q q' : Queue) (ins outs : List Item) (item : Item) (timeout_ms : ℕ) (self : Option ℕ)
      (k k' : Kernel)
      → queue_send item timeout_ms self q k [] ≡ returns false q' k'
      → Moves p q ins outs
      → Moves p q' ins outs
  sent_by_isr :
      (q : Queue) (ins outs : List Item) (item : Item) (k : Kernel)
      → (queue_send_from_isr item q k).0 ≡ true
      → Moves p q ins outs
      → Moves p (queue_send_from_isr item q k).2 (ins ++ item ∷ []) outs
  not_sent_by_isr :
      (q : Queue) (ins outs : List Item) (item : Item) (k : Kernel)
      → (queue_send_from_isr item q k).0 ≡ false
      → Moves p q ins outs
      → Moves p (queue_send_from_isr item q k).2 ins outs
  received :
      (q q' : Queue) (ins outs : List Item) (item : Item) (timeout_ms : ℕ) (self : Option ℕ)
      (k k' : Kernel)
      → queue_recv timeout_ms self q k [] ≡ returns (some item) q' k'
      → Moves p q ins outs
      → Moves p q' ins (outs ++ item ∷ [])
  not_received :
      (q q' : Queue) (ins outs : List Item) (timeout_ms : ℕ) (self : Option ℕ) (k k' : Kernel)
      → queue_recv timeout_ms self q k [] ≡ returns none q' k'
      → Moves p q ins outs
      → Moves p q' ins outs

send-sent :
    (q q' : Queue) (item : Item) (timeout_ms : ℕ) (self : Option ℕ) (k k' : Kernel)
    → queue_send item timeout_ms self q k [] ≡ returns true q' k'
    → (q.count < q.capacity) × (q' ≡ put_item item q)
unfolding queue_send
send-sent q q' item timeout_ms self k k' e = ground arith

send-not_sent :
    (q q' : Queue) (item : Item) (timeout_ms : ℕ) (self : Option ℕ) (k k' : Kernel)
    → queue_send item timeout_ms self q k [] ≡ returns false q' k'
    → q' ≡ q
unfolding queue_send
send-not_sent q q' item timeout_ms self k k' e = ground arith

recv-received :
    (q q' : Queue) (item : Item) (timeout_ms : ℕ) (self : Option ℕ) (k k' : Kernel)
    → queue_recv timeout_ms self q k [] ≡ returns (some item) q' k'
    → (0 < q.count) × (item ≡ (take_item q).0) × (q' ≡ (take_item q).1)
unfolding queue_recv
recv-received q q' item timeout_ms self k k' e = ground arith

recv-not_received :
    (q q' : Queue) (timeout_ms : ℕ) (self : Option ℕ) (k k' : Kernel)
    → queue_recv timeout_ms self q k [] ≡ returns none q' k'
    → q' ≡ q
unfolding queue_recv
recv-not_received q q' timeout_ms self k k' e = ground arith

isr_sent :
    (q : Queue) (item : Item) (k : Kernel)
    → (queue_send_from_isr item q k).0 ≡ true
    → (q.count < q.capacity) × ((queue_send_from_isr item q k).2 ≡ put_item item q)
unfolding queue_send_from_isr
isr_sent q item k e = ground arith

isr_not_sent :
    (q : Queue) (item : Item) (k : Kernel)
    → (queue_send_from_isr item q k).0 ≡ false
    → (queue_send_from_isr item q k).2 ≡ q
unfolding queue_send_from_isr
isr_not_sent q item k e = ground arith

-- The items of a queue after one more is put, and after the first is taken.
module _ (p q : Queue) (ins outs : List Item) (e : contents p ++ ins ≡ outs ++ contents q) where
  put-order :
      (q' : Queue) (item : Item)
      → contents q' ≡ contents q ++ item ∷ []
      → contents p ++ (ins ++ item ∷ []) ≡ outs ++ contents q'
  put-order q' item same =
      sym (append_assoc (contents p) ins (item ∷ []))
      ∙ ap (λ l. l ++ item ∷ []) e
      ∙ append_assoc outs (contents q) (item ∷ [])
      ∙ ap (◌++◌ outs) (sym same)

  take-order :
      (q' : Queue) (item : Item)
      → contents q ≡ item ∷ contents q'
      → contents p ++ ins ≡ (outs ++ item ∷ []) ++ contents q'
  take-order q' item same =
      e ∙ ap (◌++◌ outs) same ∙ sym (append_assoc outs (item ∷ []) (contents q'))

-- A queue gives its items in the order in which it was given them. However sends, receives and sends
-- of interrupts are ordered, what was in the queue followed by what was sent is what was received
-- followed by what is in it now; a call that answers false changes nothing. The queue stays valid.
pub queue_fifo :
    (p q : Queue) (ins outs : List Item)
    → IsValid p
    → Moves p q ins outs
    → (contents p ++ ins ≡ outs ++ contents q) × IsValid q
queue_fifo p _ _ _ v start = (append-nil (contents p), v)
queue_fifo p _ _ _ v (sent q q' ins outs item timeout_ms self k k' did m) =
    let (e, w) = queue_fifo p q ins outs v m in
    let (room, same) = send-sent q q' item timeout_ms self k k' did in
    let (longer, w') = put_item_lem item q room w in
    rw same (put-order p q ins outs e (put_item item q) item longer, w')
queue_fifo p _ _ _ v (not_sent q q' ins outs item timeout_ms self k k' did m) =
    rw (send-not_sent q q' item timeout_ms self k k' did) (queue_fifo p q ins outs v m)
queue_fifo p _ _ _ v (sent_by_isr q ins outs item k did m) =
    let (e, w) = queue_fifo p q ins outs v m in
    let (room, same) = isr_sent q item k did in
    let (longer, w') = put_item_lem item q room w in
    rw same (put-order p q ins outs e (put_item item q) item longer, w')
queue_fifo p _ _ _ v (not_sent_by_isr q ins outs item k did m) =
    rw (isr_not_sent q item k did) (queue_fifo p q ins outs v m)
queue_fifo p _ _ _ v (received q q' ins outs item timeout_ms self k k' did m) =
    let (e, w) = queue_fifo p q ins outs v m in
    let (some_there, first, same) = recv-received q q' item timeout_ms self k k' did in
    let (shorter, w') = take_item_lem q some_there w in
    rw (first, same) (take-order p q ins outs e (take_item q).1 (take_item q).0 shorter, w')
queue_fifo p _ _ _ v (not_received q q' ins outs timeout_ms self k k' did m) =
    rw (recv-not_received q q' timeout_ms self k k' did) (queue_fifo p q ins outs v m)
