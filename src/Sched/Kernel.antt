-- ===== src/Sched/Kernel.antt =====
-- sched.c: the state of the kernel, its wait queues, and the switch from one thread to another.
-- The chain of a wait queue is a list of slots, its head first. What the host's context is does not
-- show: `switch_to` says to whom the processor goes, `none` being the host, and whether the outgoing
-- context is thrown away.
pub mod Create
pub mod Sound
pub mod Keeps
pub mod Passes
pub mod Ends
pub mod Faults
pub mod Moves
pub mod Samples
pub mod Slots
pub mod Drain
pub mod Wake
pub mod Linked
pub mod Rotation
pub mod Quiet
pub mod Yields
mod Tests
use rv.Prelude.{
  ℕ, zero, suc, ◌+◌, ◌-◌, ◌%◌, ◌^◌, Bool, true, false, not, ◌&&◌, ◌||◌, Option, none, some, List,
  [], ◌∷◌, ltb, ◌==◌, if◌then◌else◌, get_elem?, get_or, set,
}
use rv.Sched.{
  Thread, dead, ready, running, sleeping, blocked, elapsed, is_dead, pick_next, age_threads,
  wake_sleepers, is_current, reap_dead, stack_intact,
}

-- The file's static variables. The ring of notes is a list of PENDING_MAX queues.
pub record Kernel : Type 0 where
  pub threads : List Thread
  pub current : Option ℕ
  pub ticks : ℕ
  pub last_age_tick : ℕ
  pub switches : ℕ
  pub blocks : ℕ
  pub sched_lock : ℕ
  pub stack_faults : ℕ
  pub pending : List ℕ
  pub pend_head : ℕ
  pub pend_tail : ℕ
  pub pend_lost : ℕ
  pub queues : ℕ → List ℕ

abbrev pub pending_max : ℕ
pending_max = 16

-- RV9K_WAIT_FOREVER.
abbrev pub wait_forever : ℕ
wait_forever = 0xffff_ffff

-- A write through a pointer to the thread in slot `i`.
pub at_slot : ℕ → (Thread → Thread) → List Thread → List Thread
at_slot i f [] = []
at_slot zero f (th ∷ ths) = f th ∷ ths
at_slot (suc i) f (th ∷ ths) = th ∷ at_slot i f ths

abbrev pub on_thread : ℕ → (Thread → Thread) → Kernel → Kernel
on_thread i f k = record k { threads = at_slot i f k.threads }

abbrev pub set_chain : ℕ → List ℕ → Kernel → Kernel
set_chain q chain k = record k { queues = λ r. if r == q then chain else k.queues r }

abbrev pub waitq_push : ℕ → ℕ → Kernel → Kernel
waitq_push q i k = set_chain q (i ∷ k.queues q) k

pub without : ℕ → List ℕ → List ℕ
without i [] = []
without i (j ∷ js) = if j == i then js else j ∷ without i js

abbrev pub waitq_remove : ℕ → ℕ → Kernel → Kernel
waitq_remove q i k = set_chain q (without i (k.queues q)) k

abbrev pub priority_of : Option Thread → ℕ
priority_of none = 0
priority_of (some th) = th.effective_priority

-- The loop of `waitq_pop_best`: the best waiter so far, and its priority.
abbrev pub preferred : ℕ → ℕ → Option (ℕ × ℕ) → Option (ℕ × ℕ)
preferred i p none = some (i, p)
preferred i p (some (j, best)) = if ltb best p then some (i, p) else some (j, best)

pub best_from : List Thread → Option (ℕ × ℕ) → List ℕ → Option (ℕ × ℕ)
best_from ths best [] = best
best_from ths best (i ∷ is) = best_from ths (preferred i (priority_of (get_elem? ths i)) best) is

abbrev pub woken : Thread → Thread
woken th = record th { blocked_on = none; wake_at_tick = 0; status = ready }

-- Whom it woke, and the kernel afterwards.
pub waitq_pop_best : ℕ → Kernel → Option ℕ × Kernel
waitq_pop_best q k = elim (best_from k.threads none (k.queues q)) [
  | none ↦ (none, k)
  | some (i, p) ↦ (some i, on_thread i woken (waitq_remove q i k))
]

-- A note for the kernel, left by an interrupt.
pub pend_wake : ℕ → Kernel → Kernel
pend_wake q k =
    let next = (k.pend_head + 1) % pending_max in
    elim (k.queues q) [
      | [] ↦ k
      | i ∷ is ↦
          if not (next == k.pend_tail)
          then record k { pending = set k.pending k.pend_head q; pend_head = next }
          else record k { pend_lost = (k.pend_lost + 1) % 2 ^ 32 }
    ]

-- The loop of `drain_pending`, with the rounds that are left. The ring holds fewer notes than
-- PENDING_MAX.
pub drain_loop : ℕ → Kernel → Kernel
drain_loop zero k = k
drain_loop (suc n) k =
    let q = get_or k.pending k.pend_tail 0 in
    let rest =
      drain_loop n
        (waitq_pop_best q (record k { pend_tail = (k.pend_tail + 1) % pending_max })).1 in
    if k.pend_tail == k.pend_head then k else rest

pub drain_pending : Kernel → Kernel
drain_pending k = drain_loop pending_max k

pub data Switch : Type 0 where
  stays : Switch
  switch_to : Option ℕ → Bool → Switch

abbrev pub faulted : Thread → Thread
faulted th = record th { fault = 1; status = dead; held = true }

pub stack_fault : ℕ → Kernel → Kernel
stack_fault i k = record k {
  threads = at_slot i faulted k.threads;
  stack_faults = (k.stack_faults + 1) % 2 ^ 32;
}

abbrev pub is_overrun : Option Thread → Bool
is_overrun none = false
is_overrun (some th) = not (stack_intact th)

abbrev pub is_running : Option Thread → Bool
is_running none = false
is_running (some th) = elim th.status [
  | running ↦ true
  | ready ↦ false
  | dead ↦ false
  | sleeping ↦ false
  | blocked ↦ false
]

-- The outgoing thread is charged for the time it had.
pub leave : ℕ → Thread → Thread
leave t th = record th {
  ran_ticks = (th.ran_ticks + elapsed t th.entered_tick) % 2 ^ 32;
  status = if is_running (some th) then ready else th.status;
}

pub enter : ℕ → ℕ → Thread → Thread
enter t seq th = record th { status = running; entered_tick = t; last_ran_seq = seq }

abbrev pub leaving : Option ℕ → ℕ → List Thread → List Thread
leaving none t ths = ths
leaving (some i) t ths = at_slot i (leave t) ths

-- From the outgoing thread, if any, to the thread in slot `i`.
pub dispatch : ℕ → Kernel → Kernel
dispatch i k =
    let seq = (k.switches + 1) % 2 ^ 64 in
    record k {
      threads = at_slot i (enter k.ticks seq) (leaving k.current k.ticks k.threads);
      switches = seq;
      current = some i;
    }

-- `reap_dead`, `wake_sleepers` and `age_threads`.
pub housekeep : Kernel → Kernel
housekeep k =
    let awake = wake_sleepers k.ticks (reap_dead k.current k.threads) in
    let (last, ths) = age_threads k.ticks k.last_age_tick awake in
    record k { threads = ths; last_age_tick = last }

pub thread_at : Option ℕ → List Thread → Option Thread
thread_at none ths = none
thread_at (some i) ths = get_elem? ths i

-- What follows once the thread to run is chosen.
pub switch_from : Bool → Option (ℕ × Thread) → Kernel → Kernel × Switch
switch_from abandon none k = (record k { current = none }, switch_to none abandon)
switch_from abandon (some (i, th)) k =
    if is_current k.current i && is_running (some th)
    then (k, stays)
    else (dispatch i k, switch_to (some i) abandon)

abbrev pub check_stack : Bool → Kernel → Kernel
check_stack overrun k = elim k.current [
  | none ↦ k
  | some i ↦ if overrun then stack_fault i k else k
]

pub reschedule : Kernel → Kernel × Switch
reschedule k =
    let drained = drain_pending k in
    let overrun = is_overrun (thread_at drained.current drained.threads) in
    let kept = housekeep (check_stack overrun drained) in
    if ltb 0 drained.sched_lock
    then (drained, stays)
    else switch_from overrun (pick_next kept.threads) kept

-- What `block_on` does before it gives up the processor; `self` is `s_current`.
abbrev pub blocking : ℕ → ℕ → ℕ → Thread → Thread
blocking q timeout_ms t th = record th {
  blocked_on = some q;
  has_deadline = not (timeout_ms == wait_forever);
  wake_at_tick = if timeout_ms == wait_forever then 0 else (t + timeout_ms % 2 ^ 32) % 2 ^ 32;
  status = blocked;
}

pub block_start : ℕ → ℕ → ℕ → Kernel → Kernel
block_start q timeout_ms self k =
    record (waitq_push q self (on_thread self (blocking q timeout_ms k.ticks) k)) {
      blocks = (k.blocks + 1) % 2 ^ 64;
    }

abbrev pub blocked_on_of : Option Thread → Option ℕ
blocked_on_of none = none
blocked_on_of (some th) = th.blocked_on

abbrev pub is_on : Option ℕ → ℕ → Bool
is_on none q = false
is_on (some r) q = r == q

abbrev pub unblocked : Thread → Thread
unblocked th = record th { blocked_on = none }

-- And when it has it again: whether a give woke it, and the kernel.
pub block_end : ℕ → ℕ → Kernel → Bool × Kernel
block_end q self k =
    if is_on (blocked_on_of (get_elem? k.threads self)) q
    then (false, on_thread self unblocked (waitq_remove q self k))
    else (true, k)

-- The thread leaves the queue that it waits on, if any.
pub unqueue : ℕ → Kernel → Kernel
unqueue i k = elim (blocked_on_of (get_elem? k.threads i)) [
  | none ↦ k
  | some q ↦ on_thread i unblocked (waitq_remove q i k)
]

abbrev pub died : Thread → Thread
died th = record th { status = dead }

-- `rv9k_exit` up to the switch.
pub exit_start : Kernel → Kernel
exit_start k = elim k.current [ none ↦ k | some i ↦ on_thread i died k ]

pub thread_kill : ℕ → Kernel → Kernel
thread_kill i k =
    if is_current k.current i then (reschedule (exit_start k)).0 else on_thread i died (unqueue i k)

-- The answers of `rv9k_thread_stop`: 0, -1 and -2.
pub data Stopped : Type 0 where
  stopped no_such busy : Stopped

abbrev pub killed : Thread → Thread
killed th = record th { fault = 2; held = true; status = dead }

abbrev pub cancelled : Thread → Thread
cancelled th = record th { cancel = true }

pub thread_stop : ℕ → Kernel → Stopped × Kernel
thread_stop i k = elim (get_elem? k.threads i) [
  | none ↦ (no_such, k)
  | some th ↦
      if is_current k.current i || is_dead th
      then (no_such, k)
      else if ltb 0 th.holds
      then (busy, on_thread i cancelled k)
      else (stopped, on_thread i killed (unqueue i k))
]

abbrev pub asleep : ℕ → ℕ → Thread → Thread
asleep t ticks th = record th { wake_at_tick = (t + ticks) % 2 ^ 32; status = sleeping }

-- `rv9k_sleep_ticks` up to the switch.
pub sleep_start : ℕ → Kernel → Kernel
sleep_start ticks k = elim k.current [ none ↦ k | some i ↦ on_thread i (asleep k.ticks ticks) k ]

pub sched_lock_take : Kernel → Kernel
sched_lock_take k = record k { sched_lock = (k.sched_lock + 1) % 2 ^ 32 }

abbrev pub one_less : ℕ → ℕ
one_less n = if ltb 0 n then n - 1 else n

pub sched_unlock : Kernel → Kernel × Switch
sched_unlock k =
    let k' = record k { sched_lock = one_less k.sched_lock } in
    elim k'.current [
      | none ↦ (k', stays)
      | some i ↦ if k'.sched_lock == 0 then reschedule k' else (k', stays)
    ]
