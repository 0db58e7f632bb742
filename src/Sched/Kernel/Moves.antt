-- ===== src/Sched/Kernel/Moves.antt =====
-- sched.c: the kernel step by step.
-- A state has the kernel and, for each slot, the queue of the call of `block_on` that its thread is
-- in. A call of `block_on` is two steps, one on each side of the switch; interrupts come between any
-- two steps.
use rv.Prelude.{
  ℕ, zero, suc, ◌≡◌, refl, true, false, Option, none, some, List, [], ◌∷◌, map, arith, get_elem?,
  all,
}
use rv.Sched.{Thread, is_current, priority_set, priority_boost, priority_unboost}
use rv.Sched.Kernel.{
  Kernel, on_thread, waitq_pop_best, pend_wake, reschedule, block_start, blocked_on_of, block_end,
  exit_start, thread_kill, thread_stop, sleep_start, sched_lock_take, one_less, sched_unlock,
}
use rv.Sched.Kernel.Create.{
  vacate, kernel_init, tick, thread_create, released, thread_release, serve_turn, host_resumed,
}
use rv.Sched.Kernel.Linked.{Linked}
use rv.Sched.Kernel.Sound.{Sound, is_nothing, is_quiet}
use rv.Sched.Kernel.Keeps.{
  put_at, Sound-same, waitq_pop_best-Sound, pend_wake-Sound, block_start-Sound, block_end-Sound,
}
use rv.Sched.Kernel.Passes.{may_switch, on_thread-Sound, reschedule-Sound}
use rv.Sched.Kernel.Ends.{
  cleared, thread_kill-Sound, thread_stop-Sound, sleep_start-Sound, exit_start-Sound,
  serve_turn-Sound, sched_unlock-Sound, thread_create-Sound,
}

pub data Move : Kernel → (ℕ → Option ℕ) → Kernel → (ℕ → Option ℕ) → Type 0 where
  interrupt : (k : Kernel) (w : ℕ → Option ℕ) → Move k w (tick k) w
  note : (q : ℕ) (k : Kernel) (w : ℕ → Option ℕ) → Move k w (pend_wake q k) w
  give : (q : ℕ) (k : Kernel) (w : ℕ → Option ℕ) → Move k w (waitq_pop_best q k).1 w
  yield : (k : Kernel) (w : ℕ → Option ℕ) → may_switch k ≡ true → Move k w (reschedule k).0 w
  block :
      (q t self : ℕ) (th : Thread) (k : Kernel) (w : ℕ → Option ℕ)
      → k.current ≡ some self
      → w self ≡ none
      → get_elem? k.threads self ≡ some th
      → may_switch (block_start q t self k) ≡ true
      → Move k w (reschedule (block_start q t self k)).0 (put_at self (some q) w)
  resume :
      (q self : ℕ) (k : Kernel) (w : ℕ → Option ℕ)
      → k.current ≡ some self
      → w self ≡ some q
      → Move k w (block_end q self k).1 (put_at self none w)
  sleep :
      (ticks : ℕ) (k : Kernel) (w : ℕ → Option ℕ)
      → may_switch (sleep_start ticks k) ≡ true
      → Move k w (reschedule (sleep_start ticks k)).0 w
  exit :
      (self : ℕ) (k : Kernel) (w : ℕ → Option ℕ)
      → k.current ≡ some self
      → w self ≡ none
      → may_switch (exit_start k) ≡ true
      → Move k w (reschedule (exit_start k)).0 w
  kill :
      (i : ℕ) (k : Kernel) (w : ℕ → Option ℕ)
      → is_current k.current i ≡ false
      → Move k w (thread_kill i k) w
  stop : (i : ℕ) (k : Kernel) (w : ℕ → Option ℕ) → Move k w (thread_stop i k).1 w
  create :
      (ctx trampoline fn arg bytes priority : ℕ) (alloc : Option (ℕ → Option ℕ)) (name : List ℕ)
      (k : Kernel) (w : ℕ → Option ℕ)
      → Move k w
          (thread_create ctx trampoline alloc fn arg name bytes priority k).1
          (cleared (thread_create ctx trampoline alloc fn arg name bytes priority k).0 w)
  release : (i : ℕ) (k : Kernel) (w : ℕ → Option ℕ) → Move k w (thread_release i k) w
  serve : (k : Kernel) (w : ℕ → Option ℕ) → Move k w (serve_turn k).0 w
  host : (k : Kernel) (w : ℕ → Option ℕ) → Move k w (host_resumed k) w
  lock : (k : Kernel) (w : ℕ → Option ℕ) → Move k w (sched_lock_take k) w
  unlock :
      (k : Kernel) (w : ℕ → Option ℕ)
      → may_switch (record k { sched_lock = one_less k.sched_lock }) ≡ true
      → Move k w (sched_unlock k).0 w
  set_priority :
      (i priority : ℕ) (k : Kernel) (w : ℕ → Option ℕ)
      → Move k w (on_thread i (priority_set priority) k) w
  boost_priority :
      (i priority : ℕ) (k : Kernel) (w : ℕ → Option ℕ)
      → Move k w (on_thread i (priority_boost priority) k) w
  unboost_priority :
      (i : ℕ) (k : Kernel) (w : ℕ → Option ℕ) → Move k w (on_thread i priority_unboost k) w

-- One step.
Move-Sound :
    (k : Kernel) (w : ℕ → Option ℕ) (k' : Kernel) (w' : ℕ → Option ℕ)
    → Move k w k' w'
    → Sound w k
    → Sound w' k'
unfolding priority_set priority_boost priority_unboost thread_release sched_lock_take
Move-Sound _ _ _ _ (interrupt k w) s = Sound-same w k _ refl refl s
Move-Sound _ _ _ _ (note q k w) s = pend_wake-Sound w q k s
Move-Sound _ _ _ _ (give q k w) s = waitq_pop_best-Sound w q k s
Move-Sound _ _ _ _ (yield k w sane) s = reschedule-Sound w k sane s
Move-Sound _ _ _ _ (block q t self th k w e outside at sane) s =
    reschedule-Sound (put_at self (some q) w) (block_start q t self k) sane
      (block_start-Sound w q t self th k at outside s)
Move-Sound _ _ _ _ (resume q self k w e in_it) s = block_end-Sound w q self k in_it s
Move-Sound _ _ _ _ (sleep ticks k w sane) s =
    reschedule-Sound w (sleep_start ticks k) sane (sleep_start-Sound w ticks k s)
Move-Sound _ _ _ _ (exit self k w e outside sane) s =
    reschedule-Sound w (exit_start k) sane (exit_start-Sound w self k e outside s)
Move-Sound _ _ _ _ (kill i k w other) s = thread_kill-Sound w i k other s
Move-Sound _ _ _ _ (stop i k w) s = thread_stop-Sound w i k s
Move-Sound _ _ _ _ (create ctx trampoline fn arg bytes priority alloc name k w) s =
    thread_create-Sound w ctx trampoline fn arg bytes priority alloc name k s
Move-Sound _ _ _ _ (release i k w) s =
    on_thread-Sound w i released k (λ a at. record { same = refl; stays_quiet = λ h. h }) s
Move-Sound _ _ _ _ (serve k w) s = serve_turn-Sound w k s
Move-Sound _ _ _ _ (host k w) s = Sound-same w k _ refl refl s
Move-Sound _ _ _ _ (lock k w) s = Sound-same w k _ refl refl s
Move-Sound _ _ _ _ (unlock k w sane) s = sched_unlock-Sound w k sane s
Move-Sound _ _ _ _ (set_priority i priority k w) s =
    on_thread-Sound w i (priority_set priority) k
      (λ a at. record { same = refl; stays_quiet = λ h. h }) s
Move-Sound _ _ _ _ (boost_priority i priority k w) s =
    on_thread-Sound w i (priority_boost priority) k
      (λ a at. record { same = ground arith; stays_quiet = ground arith }) s
Move-Sound _ _ _ _ (unboost_priority i k w) s =
    on_thread-Sound w i priority_unboost k
      (λ a at. record { same = ground arith; stays_quiet = ground arith }) s

-- From `rv9k_init`, with nobody on a queue.
pub data Reach : Kernel → (ℕ → Option ℕ) → Type 0 where
  start :
      (k : Kernel)
      → ((q : ℕ) → k.queues q ≡ [])
      → all (λ th. is_nothing th.blocked_on) k.threads ≡ true
      → Reach (kernel_init k) (λ i. none)
  then_step :
      (k : Kernel) (w : ℕ → Option ℕ) (k' : Kernel) (w' : ℕ → Option ℕ)
      → Move k w k' w'
      → Reach k w
      → Reach k' w'

nobody_waits :
    (ths : List Thread) (i : ℕ)
    → all (λ th. is_nothing th.blocked_on) ths ≡ true
    → blocked_on_of (get_elem? (map vacate ths) i) ≡ none
nobody_waits [] i h = refl
nobody_waits (th ∷ ths) zero h = ground arith
nobody_waits (th ∷ ths) (suc i) h = nobody_waits ths i (ground arith)

all_quiet :
    (ths : List Thread)
    → all (λ th. is_nothing th.blocked_on) ths ≡ true
    → all is_quiet (map vacate ths) ≡ true
all_quiet [] h = refl
all_quiet (th ∷ ths) h = ground (arith, all_quiet ths)

start-Sound :
    (k : Kernel)
    → ((q : ℕ) → k.queues q ≡ [])
    → all (λ th. is_nothing th.blocked_on) k.threads ≡ true
    → Sound (λ i. none) (kernel_init k)
unfolding kernel_init
start-Sound k empty free = record {
  links = record {
    linked = λ q i. rw (empty q, nobody_waits k.threads i free) refl;
    once = λ q. rw (empty q) refl;
  };
  quiet = all_quiet k.threads free;
  waits_inside = λ i q h. absurd (ground (arith, nobody_waits k.threads i free, h));
}

Reach-Sound : (k : Kernel) (w : ℕ → Option ℕ) → Reach k w → Sound w k
Reach-Sound _ _ (start k empty free) = start-Sound k empty free
Reach-Sound _ _ (then_step k w k' w' mv r) = Move-Sound k w k' w' mv (Reach-Sound k w r)

-- In every state that the kernel reaches, a slot stands in the chain of a queue just when its thread
-- waits on that queue, and at most once. A step is any operation of a thread, of the host or of an
-- interrupt, those of `block_on` being called by the thread that runs; a step that switches is
-- taken while the thread that runs has not overrun its stack, or waits on nothing.
pub Reach-Linked : (k : Kernel) (w : ℕ → Option ℕ) → Reach k w → Linked k
Reach-Linked k w r = (Reach-Sound k w r).links
