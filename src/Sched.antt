-- ===== src/Sched.antt =====
-- components/rv9_kernel/src/sched.c: the kernel's threads, and which of them runs.
-- A thread is named by its slot in the table, and a wait queue by a number. Priorities are those of
-- the band, from 0 to 15; a counter of ticks is of 32 bits. What a context switch saves and loads is
-- left out: a step ends where the thread gives up the processor.
pub mod Pick
pub mod Clock
pub mod Aging
pub mod Kernel
pub mod Sync
pub mod Queue
mod Tests
use rv.Prelude.{
  ℕ, ◌+◌, ◌-◌, ◌*◌, ◌%◌, ◌^◌, Bool, true, false, not, ◌&&◌, ◌||◌, Option, none, some, List, [], ◌∷◌,
  map, ltb, leb, ◌==◌, if◌then◌else◌, take, drop, all,
}

-- `rv9k_state_t`.
pub data Status : Type 0 where
  dead ready running sleeping blocked : Status

-- `rv9k_thread_t`. `stack` has the words of the allocation, the pad first; `none` is NULL.
pub record Thread : Type 0 where
  pub stack : Option (List ℕ)
  pub name : List ℕ
  pub status : Status
  pub base_priority : ℕ
  pub age : ℕ
  pub effective_priority : ℕ
  pub boost : ℕ
  pub wake_at_tick : ℕ
  pub blocked_on : Option ℕ
  pub has_deadline : Bool
  pub ran_ticks : ℕ
  pub entered_tick : ℕ
  pub last_ran_seq : ℕ
  pub fault : ℕ
  pub holds : ℕ
  pub cancel : Bool
  pub mem_class : ℕ
  pub held : Bool

-- RV9K_PRIO_MAX, RV9K_AGE_MAX and RV9K_AGE_PERIOD_TICKS.
abbrev pub prio_max : ℕ
prio_max = 15

abbrev pub age_max : ℕ
age_max = 10

abbrev pub age_period_ticks : ℕ
age_period_ticks = 20

-- `(uint32_t)(t - since)`.
abbrev pub elapsed : ℕ → ℕ → ℕ
elapsed t since = (t + 2 ^ 32 - since) % 2 ^ 32

-- RV9K_TICK_REACHED: the difference is not negative as an int32_t.
abbrev pub tick_reached : ℕ → ℕ → Bool
tick_reached t deadline = ltb (elapsed t deadline) (2 ^ 31)

abbrev pub is_runnable : Thread → Bool
is_runnable th = elim th.status [
  | ready ↦ true
  | running ↦ true
  | dead ↦ false
  | sleeping ↦ false
  | blocked ↦ false
]

abbrev pub is_dead : Thread → Bool
is_dead th = elim th.status [
  | dead ↦ true
  | ready ↦ false
  | running ↦ false
  | sleeping ↦ false
  | blocked ↦ false
]

-- `th` in the place of `best`, in the loop of `pick_next`.
abbrev pub is_better : Thread → Thread → Bool
is_better th best =
    ltb best.effective_priority th.effective_priority
    || th.effective_priority == best.effective_priority && ltb th.last_ran_seq best.last_ran_seq

abbrev pub consider : ℕ → Thread → Option (ℕ × Thread) → Option (ℕ × Thread)
consider i th none = if is_runnable th then some (i, th) else none
consider i th (some (j, best)) =
    if is_runnable th && is_better th best then some (i, th) else some (j, best)

pub pick_from : ℕ → Option (ℕ × Thread) → List Thread → Option (ℕ × Thread)
pick_from i best [] = best
pick_from i best (th ∷ ths) = pick_from (i + 1) (consider i th best) ths

pub pick_next : List Thread → Option (ℕ × Thread)
pick_next ths = pick_from 0 none ths

-- The first loop of `age_threads`: the slot of `top`, and its priority.
abbrev pub higher : ℕ → Thread → Option (ℕ × ℕ) → Option (ℕ × ℕ)
higher i th none = if is_runnable th then some (i, th.effective_priority) else none
higher i th (some (j, p)) =
    if is_runnable th && ltb p th.effective_priority
    then some (i, th.effective_priority)
    else some (j, p)

pub top_from : ℕ → Option (ℕ × ℕ) → List Thread → Option (ℕ × ℕ)
top_from i top [] = top
top_from i top (th ∷ ths) = top_from (i + 1) (higher i th top) ths

abbrev pub is_top : ℕ → Option (ℕ × ℕ) → Bool
is_top i none = false
is_top i (some (j, p)) = i == j

-- `base + age`, at most RV9K_PRIO_MAX, and at least the inherited priority.
unfoldable pub effective : ℕ → ℕ → ℕ → ℕ
effective base age boost =
    let eff = if ltb prio_max (base + age) then prio_max else base + age in
    if ltb eff boost then boost else eff

-- `recompute_priority`.
abbrev pub recompute : Thread → Thread
recompute th = record th { effective_priority = effective th.base_priority th.age th.boost }

abbrev pub aged : Bool → Thread → Thread
aged top th =
    recompute
      (record th { age = if top then 0 else if ltb th.age age_max then th.age + 1 else th.age })

-- The second loop.
pub age_from : ℕ → Option (ℕ × ℕ) → List Thread → List Thread
age_from i top [] = []
age_from i top (th ∷ ths) =
    (if is_runnable th then aged (is_top i top) th else th) ∷ age_from (i + 1) top ths

pub age_all : List Thread → List Thread
age_all ths = age_from 0 (top_from 0 none ths) ths

-- `age_threads` at tick `t`, with `s_last_age_tick`.
pub age_threads : ℕ → ℕ → List Thread → ℕ × List Thread
age_threads t last ths =
    if ltb (elapsed t last) age_period_ticks then (last, ths) else (t, age_all ths)

abbrev pub is_due : ℕ → Thread → Bool
is_due t th = elim th.status [
  | sleeping ↦ tick_reached t th.wake_at_tick
  | blocked ↦ th.has_deadline && tick_reached t th.wake_at_tick
  | dead ↦ false
  | ready ↦ false
  | running ↦ false
]

abbrev pub wake_one : ℕ → Thread → Thread
wake_one t th = if is_due t th then record th { status = ready } else th

pub wake_sleepers : ℕ → List Thread → List Thread
wake_sleepers t ths = map (wake_one t) ths

-- One slot of `reap_dead`; `spared` says that it is the thread that runs.
abbrev pub reap_one : Bool → Thread → Thread
reap_one spared th = elim th.stack [
  | none ↦ th
  | some words ↦
      if spared || not (is_dead th)
      then th
      else record th { stack = none; name = if th.held then th.name else [] }
]

abbrev pub is_current : Option ℕ → ℕ → Bool
is_current none i = false
is_current (some c) i = c == i

pub reap_from : Option ℕ → ℕ → List Thread → List Thread
reap_from current i [] = []
reap_from current i (th ∷ ths) = reap_one (is_current current i) th ∷ reap_from current (i + 1) ths

pub reap_dead : Option ℕ → List Thread → List Thread
reap_dead current ths = reap_from current 0 ths

-- RV9K_PRIO_MAX as a bound on what a caller asks for.
abbrev pub clamp : ℕ → ℕ
clamp priority = if ltb prio_max priority then prio_max else priority

pub priority_set : ℕ → Thread → Thread
priority_set priority th = recompute (record th { base_priority = clamp priority; age = 0 })

pub priority_boost : ℕ → Thread → Thread
priority_boost priority th =
    if leb (clamp priority) th.boost then th else recompute (record th { boost = clamp priority })

pub priority_unboost : Thread → Thread
priority_unboost th = if th.boost == 0 then th else recompute (record th { boost = 0 })

-- RV9K_STACK_PAINT, RV9K_STACK_PAD_WORDS and RV9K_GUARD_WORDS.
abbrev pub stack_paint : ℕ
stack_paint = 0xa5c3_a5c3

abbrev pub stack_pad_words : ℕ
stack_pad_words = 32

abbrev pub guard_words : ℕ
guard_words = 4

-- `stack_intact`: the guard and the pad below it still hold the pattern.
pub stack_intact : Thread → Bool
stack_intact th = elim th.stack [
  | none ↦ true
  | some words ↦ all (λ w. w == stack_paint) (take (stack_pad_words + guard_words) words)
]

-- How many words from the low end still hold the pattern.
pub unused_from : List ℕ → ℕ
unused_from [] = 0
unused_from (w ∷ ws) = let rest = unused_from ws in if w == stack_paint then rest + 1 else 0

pub stack_unused : Thread → ℕ
stack_unused th = elim th.stack [
  | none ↦ 0
  | some words ↦ unused_from (drop stack_pad_words words) * 4
]
