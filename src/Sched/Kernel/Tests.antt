-- ===== src/Sched/Kernel/Tests.antt =====
-- sched.c: turns, wait queues and the reachable states on concrete threads.
use rv.Prelude.{
  ℕ, ◌≡◌, refl, true, false, Option, none, some, List, [], ◌∷◌, ◌++◌, arith, get_elem?,
}
use rv.Sched.{
  Thread, blocked, is_runnable, pick_from, pick_next, age_threads, is_due, wake_sleepers, reap_from,
  reap_dead, stack_intact,
}
use rv.Sched.Kernel.{
  Kernel, wait_forever, at_slot, on_thread, set_chain, waitq_push, woken, waitq_pop_best,
  drain_loop, drain_pending, stack_fault, enter, housekeep, thread_at, reschedule, block_start,
  block_end,
}
use rv.Sched.Kernel.Create.{
  vacate, kernel_init, free_from, stack_words, frame, frame_start, new_stack, fresh, thread_create,
  serve_turn,
}
use rv.Sched.Kernel.Samples.{plain, two, kernel_of, calm}
use rv.Sched.Kernel.Keeps.{put_at}
use rv.Sched.Kernel.Ends.{cleared}
use rv.Sched.Kernel.Linked.{Linked}
use rv.Sched.Kernel.Wake.{Best, waitq_pop_best-wakes, waitq_push-newest}
use rv.Sched.Kernel.Faults.{corpse, stack_fault-runs, block_locked-stuck}
use rv.Sched.Kernel.Moves.{block, create, serve, Reach, start, then_step, Reach-Linked}
use rv.Sched.Kernel.Rotation.{Waits}
use rv.Sched.Kernel.Quiet.{Quiet}
use rv.Sched.Kernel.Yields.{runs_within, turns-fair}

first-Waits : Waits 2 calm 0 5 4
unfolding thread_at
first-Waits = record {
  th = record plain { last_ran_seq = 4 };
  at = refl;
  runs = refl;
  priority = refl;
  seq = refl;
  highest = refl;
  past = refl;
  before = ground arith;
  later = refl;
}

calm-Quiet : Quiet calm
unfolding stack_intact
calm-Quiet = record { no_notes = refl; unlocked = refl; intact = refl; reaped = refl }

-- The thread that was chosen last comes second, with a tick between the two calls.
turns-fair_example : runs_within 0 (100 ∷ 101 ∷ []) calm ≡ true
turns-fair_example =
    turns-fair 2 (100 ∷ 101 ∷ []) calm 0 5 4 refl first-Waits calm-Quiet refl (ground arith)

-- Both wait on queue 7.
abbrev waiting : Kernel
waiting = kernel_of two (λ q. 0 ∷ 1 ∷ [])

waitq_pop_best-wakes_example :
    (n : ℕ) × (p : ℕ) × (b : Best two (0 ∷ 1 ∷ []) n p) × (waitq_pop_best 7 waiting
      ≡ (some n, on_thread n woken (set_chain 7 (b.before ++ b.after) waiting)))
waitq_pop_best-wakes_example = waitq_pop_best-wakes 7 0 (1 ∷ []) waiting refl

-- Thread 1 waits, and thread 0 joins it.
abbrev one_waits : Kernel
one_waits = kernel_of two (λ q. 1 ∷ [])

waitq_push-newest_example : (waitq_pop_best 7 (waitq_push 7 0 one_waits)).0 ≡ some 0
waitq_push-newest_example = waitq_push-newest 7 0 one_waits refl

-- Thread 1, with a stack, waits alone.
abbrev with_stack : Thread
with_stack = record plain { stack = some (0 ∷ []) }

abbrev overrun : Kernel
overrun = kernel_of (plain ∷ with_stack ∷ []) (λ q. 1 ∷ [])

stack_fault-runs_example :
    let reaped = reap_dead (some 0) (stack_fault 1 overrun).threads in
    let given = waitq_pop_best 7 (record (stack_fault 1 overrun) { threads = reaped }) in
    (given.0 ≡ some 1)
    × (get_elem? given.1.threads 1 ≡ some (woken (corpse with_stack)))
    × (is_runnable (woken (corpse with_stack)) ≡ true)
    × ((woken (corpse with_stack)).stack ≡ none)
stack_fault-runs_example = stack_fault-runs 7 1 0 with_stack overrun refl refl refl

-- The scheduler is held off.
abbrev held_off : Kernel
held_off = record calm { sched_lock = 1 }

block_locked-stuck_example :
    let (woke, k') = block_end 7 1 (reschedule (block_start 7 wait_forever 1 held_off)).0 in
    (woke ≡ false)
    × (th' : Thread) × (get_elem? k'.threads 1 ≡ some th')
    × (th'.status ≡ blocked)
    × (k'.queues 7 ≡ held_off.queues 7)
    × ((t : ℕ) → is_due t th' ≡ false)
block_locked-stuck_example =
    block_locked-stuck 7 1 (record plain { last_ran_seq = 2 }) held_off refl (ground arith) refl

-- A thread begins, gets the processor and blocks on queue 7.
abbrev host_alloc : Option (ℕ → Option ℕ)
host_alloc = some (λ n. some 0x1000)

abbrev created : Kernel
created = (thread_create 14 1 host_alloc 2 3 [] 512 5 (kernel_init calm)).1

abbrev serving : Kernel
serving = (serve_turn created).0

abbrev blocked_on_7 : Kernel
blocked_on_7 = (reschedule (block_start 7 wait_forever 0 serving)).0

abbrev painted : List ℕ
painted = new_stack 14 0x1000 (stack_words 512) (frame 14 1 2 3)

abbrev entered : Thread
entered = enter 100 1 (fresh painted [] 5 (vacate (record plain { last_ran_seq = 4 })))

serving-thread : get_elem? serving.threads 0 ≡ some entered
unfolding serve_turn thread_create kernel_init free_from drain_pending drain_loop housekeep
    reap_dead reap_from wake_sleepers age_threads pick_next pick_from at_slot fresh
serving-thread = refl

abbrev calls : ℕ → Option ℕ
calls =
    put_at 0 (some 7)
      (cleared (thread_create 14 1 host_alloc 2 3 [] 512 5 (kernel_init calm)).0 (λ i. none))

reached : Reach blocked_on_7 calls
unfolding serve_turn thread_create kernel_init free_from drain_pending drain_loop housekeep
    reap_dead reap_from wake_sleepers age_threads pick_next pick_from at_slot fresh enter
    block_start thread_at stack_intact new_stack stack_words frame_start
reached =
    then_step serving
      (cleared (thread_create 14 1 host_alloc 2 3 [] 512 5 (kernel_init calm)).0 (λ i. none)) _ _
      (block 7 wait_forever 0 entered serving _ refl refl serving-thread refl)
      (then_step created _ _ _ (serve created _) (
        then_step (kernel_init calm) (λ i. none) _ _
          (create 14 1 2 3 512 5 host_alloc [] (kernel_init calm) (λ i. none))
          (start calm (λ q. refl) refl)))

Reach-Linked_example : Linked blocked_on_7
Reach-Linked_example = Reach-Linked blocked_on_7 calls reached
