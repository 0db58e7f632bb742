-- ===== src/Sched/Sync.antt =====
-- sched.c: counting semaphores and mutexes.
-- The waiters of a semaphore are the chain of the queue that it names, in the kernel. A call that may
-- sleep has a list of turns: what the rest of the system does to the semaphore and the kernel from
-- the switch of one sleep to the caller's return from it.
pub mod Semaphores
pub mod Mutexes
mod Tests
use rv.Sched.{Thread}
use rv.Prelude.{
  ℕ, ◌+◌, ◌-◌, ◌%◌, ◌^◌, Bool, true, false, ◌||◌, Option, none, some, List, [], ◌∷◌, ltb, ◌==◌,
  if◌then◌else◌,
}
use rv.Sched.Kernel.{
  Kernel, on_thread, waitq_pop_best, pend_wake, reschedule, block_start, block_end,
}

-- `rv9k_sem_t`; `waiters` is the number of its queue.
pub record Sem : Type 0 where
  pub count : ℕ
  pub max : ℕ
  pub waiters : ℕ

abbrev pub sem_init : ℕ → ℕ → ℕ → Sem
sem_init initial max q = record { count = initial; max = max; waiters = q }

abbrev pub has_room : Sem → Bool
has_room s = s.max == 0 || ltb s.count s.max

-- `count++` of an int32_t, for a count that stays below 2 ^ 31.
abbrev pub raised : Sem → Sem
raised s = record s { count = s.count + 1 }

abbrev pub lowered : Sem → Sem
lowered s = record s { count = s.count - 1 }

-- `block_on`, from the call to the switch.
abbrev pub fall_asleep : ℕ → ℕ → ℕ → Kernel → Kernel
fall_asleep q timeout_ms self k = (reschedule (block_start q timeout_ms self k)).0

abbrev pub caller : Option ℕ → ℕ
caller none = 0
caller (some i) = i

abbrev pub is_host : Option ℕ → Bool
is_host none = true
is_host (some i) = false

abbrev pub Turn : Type 0 → Type 0
Turn S = S → Kernel → S × Kernel

-- How a call ends: with its answer, or asleep when the turns run out.
pub data Outcome (A S : Type 0) : Type 0 where
  returns : A → S → Kernel → Outcome A S
  asleep_yet : S → Kernel → Outcome A S

-- A semaphore by itself, or as a field of something.
module _ {S : Type 0} (sem_of : S → Sem) (with_sem : Sem → S → S) where
  -- `self` is `s_current`, which is the same when the thread runs again.
  pub sem_take : ℕ → Option ℕ → S → Kernel → List (Turn S) → Outcome Bool S
  sem_take timeout_ms self m k [] =
      let s = sem_of m in
      if ltb 0 s.count
      then returns true (with_sem (lowered s) m) k
      else if timeout_ms == 0 || is_host self
      then returns false m k
      else asleep_yet m (fall_asleep s.waiters timeout_ms (caller self) k)
  sem_take timeout_ms self m k (turn ∷ turns) =
      let s = sem_of m in
      let (m', k') = turn m (fall_asleep s.waiters timeout_ms (caller self) k) in
      let (given, awake) = block_end s.waiters (caller self) k' in
      let again = sem_take timeout_ms self m' awake turns in
      if ltb 0 s.count
      then returns true (with_sem (lowered s) m) k
      else if timeout_ms == 0 || is_host self
      then returns false m k
      else if given
      then again
      else returns false m' awake

pub sem_give : Sem → Kernel → Sem × Kernel
sem_give s k = (if has_room s then raised s else s, (waitq_pop_best s.waiters k).1)

abbrev pub has_waiters : List ℕ → Bool
has_waiters [] = false
has_waiters (i ∷ is) = true

-- What it returns, `*woken`, and the state afterwards.
pub sem_give_from_isr : Sem → Kernel → Bool × Bool × Sem × Kernel
sem_give_from_isr s k = (
  has_room s,
  has_waiters (k.queues s.waiters),
  if has_room s then raised s else s,
  pend_wake s.waiters k,
)

-- `rv9k_mutex_t`.
pub record Mutex : Type 0 where
  pub sem : Sem
  pub owner : Option ℕ
  pub depth : ℕ

abbrev pub mutex_init : ℕ → Mutex
mutex_init q = record { sem = sem_init 1 1 q; owner = none; depth = 0 }

abbrev pub owns : Option ℕ → Option ℕ → Bool
owns (some i) (some j) = i == j
owns (some i) none = false
owns none o = false

abbrev pub held_once : Thread → Thread
held_once th = record th { holds = (th.holds + 1) % 2 ^ 32 }

abbrev pub dropped_once : Thread → Thread
dropped_once th = record th { holds = if ltb 0 th.holds then th.holds - 1 else th.holds }

abbrev pub new_owner : Option ℕ → Mutex → Mutex
new_owner self m = record m { owner = self; depth = 1 }

abbrev pub holding : Option ℕ → (Thread → Thread) → Kernel → Kernel
holding none f k = k
holding (some i) f k = on_thread i f k

abbrev pub sem_in : Mutex → Sem
sem_in m = m.sem

abbrev pub put_sem : Sem → Mutex → Mutex
put_sem s m = record m { sem = s }

-- What follows the call of `rv9k_sem_take`.
abbrev pub owned : Option ℕ → Outcome Bool Mutex → Outcome Bool Mutex
owned self (returns true m k) = returns true (new_owner self m) (holding self held_once k)
owned self (returns false m k) = returns false m k
owned self (asleep_yet m k) = asleep_yet m k

pub mutex_lock : ℕ → Option ℕ → Mutex → Kernel → List (Turn Mutex) → Outcome Bool Mutex
mutex_lock timeout_ms self m k turns =
    if owns m.owner self
    then returns true (record m { depth = (m.depth + 1) % 2 ^ 32 }) k
    else owned self (sem_take sem_in put_sem timeout_ms self m k turns)

pub mutex_unlock : Mutex → Kernel → Mutex × Kernel
mutex_unlock m k =
    if m.depth == 0
    then (m, k)
    else if ltb 0 (m.depth - 1)
    then (record m { depth = m.depth - 1 }, k)
    else let (s, k') = sem_give m.sem (holding m.owner dropped_once k) in
      (record m { sem = s; owner = none; depth = 0 }, k')
