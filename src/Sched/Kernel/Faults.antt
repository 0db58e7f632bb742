-- ===== src/Sched/Kernel/Faults.antt =====
-- sched.c: what becomes of a thread that goes to wait with its stack overrun, or with the scheduler
-- held off.
use rv.Sched.Kernel.Slots.{at_slot_self}
use rv.Prelude.{
  ℕ, zero, suc, ◌+◌, ◌<◌, ◌≡◌, refl, ap, ◌∙◌, true, false, Option, none, some, List, [], ◌∷◌, arith,
  ◌==◌, get_elem?,
}
use rv.Sched.{Thread, blocked, is_runnable, is_due, reap_one, is_current, reap_from, reap_dead}
use rv.Sched.Kernel.{
  Kernel, stays, wait_forever, at_slot, on_thread, without, waitq_remove, best_from, woken,
  waitq_pop_best, drain_loop, drain_pending, faulted, stack_fault, reschedule, blocking,
  block_start, unblocked, block_end,
}

get_elem?-reap_from :
    (current : Option ℕ) (n i : ℕ) (ths : List Thread) (th : Thread)
    → get_elem? ths i ≡ some th
    → get_elem? (reap_from current n ths) i ≡ some (reap_one (is_current current (n + i)) th)
unfolding reap_from
get_elem?-reap_from current n i [] th h = absurd (cc)
get_elem?-reap_from current n zero (t ∷ ths) th h = ground arith
get_elem?-reap_from current n (suc i) (t ∷ ths) th h =
    let next : n + 1 + i ≡ n + suc i = omega arith in
    get_elem?-reap_from current (n + 1) i ths th h
    ∙ ap (λ m. some (reap_one (is_current current m) th)) next

-- What is left of a thread that overran its stack, once another thread runs and has freed that stack.
abbrev pub corpse : Thread → Thread
corpse th = reap_one false (faulted th)

-- A thread that waits on a queue and that is stopped for overrunning its stack stays in the chain of
-- the queue. When another thread runs, its stack is freed. If it is alone in the chain, the next give
-- makes it ready to run, and the scheduler then counts it with the runnable threads.
pub stack_fault-runs :
    (q i j : ℕ) (th : Thread) (k : Kernel)
    → get_elem? k.threads i ≡ some th
    → (j == i) ≡ false
    → k.queues q ≡ i ∷ []
    → let reaped = reap_dead (some j) (stack_fault i k).threads in
      let given = waitq_pop_best q (record (stack_fault i k) { threads = reaped }) in
      (given.0 ≡ some i)
      × (get_elem? given.1.threads i ≡ some (woken (corpse th)))
      × (is_runnable (woken (corpse th)) ≡ true)
      × ((woken (corpse th)).stack ≡ none)
unfolding reap_dead stack_fault waitq_pop_best best_from
stack_fault-runs q i j th k at other alone =
    let reaped = reap_dead (some j) (at_slot i faulted k.threads) in
    let kept = record (stack_fault i k) { threads = reaped } in
    let apart : is_current (some j) (0 + i) ≡ false = ground arith in
    let there : get_elem? reaped i ≡ some (corpse th) =
      get_elem?-reap_from (some j) 0 i (at_slot i faulted k.threads) (faulted th)
        (at_slot_self i faulted k.threads th at)
      ∙ ap (λ b. some (reap_one b (faulted th))) apart in
    let pops : waitq_pop_best q kept ≡ (some i, on_thread i woken (waitq_remove q i kept)) =
      ground (arith, alone) in
    (
      ap (λ r. r.0) pops,
      ap (λ r. get_elem? r.1.threads i) pops ∙ at_slot_self i woken reaped (corpse th) there,
      refl,
      ground arith,
    )

-- Where the scheduler is held off and no note is pending, nothing is switched.
reschedule_locked :
    (k : Kernel) → 0 < k.sched_lock → k.pend_tail ≡ k.pend_head → reschedule k ≡ (k, stays)
unfolding reschedule drain_pending drain_loop
reschedule_locked k locked empty =
    let drained : drain_pending k ≡ k = ground (arith, empty) in ground (arith, drained)

-- The thread blocks without a deadline while the scheduler is held off and no note is pending: it
-- keeps the processor and returns at once, as from a timeout. It is then in no chain that it was not in before and
-- waits on nothing, but its status still says that it is blocked, so that no passing of time makes it
-- ready.
pub block_locked-stuck :
    (q self : ℕ) (th : Thread) (k : Kernel)
    → get_elem? k.threads self ≡ some th
    → 0 < k.sched_lock
    → k.pend_tail ≡ k.pend_head
    → let (woke, k') = block_end q self (reschedule (block_start q wait_forever self k)).0 in
      (woke ≡ false)
      × (th' : Thread) × (get_elem? k'.threads self ≡ some th')
      × (th'.status ≡ blocked)
      × (k'.queues q ≡ k.queues q)
      × ((t : ℕ) → is_due t th' ≡ false)
unfolding block_end block_start without
block_locked-stuck q self th k at locked empty =
    let started = block_start q wait_forever self k in
    let kept : reschedule started ≡ (started, stays) = reschedule_locked started locked empty in
    let f = blocking q wait_forever k.ticks in
    let there : get_elem? started.threads self ≡ some (f th) =
      at_slot_self self f k.threads th at in
    let ends : block_end q self started
        ≡ (false, on_thread self unblocked (waitq_remove q self started)) =
      ground (arith, there) in
    let whole : block_end q self (reschedule started).0
        ≡ (false, on_thread self unblocked (waitq_remove q self started)) =
      ap (λ r. block_end q self r.0) kept ∙ ends in
    (
      ap (λ r. r.0) whole,
      unblocked (f th),
      ap (λ r. get_elem? r.1.threads self) whole
          ∙ at_slot_self self unblocked started.threads (f th) there,
      refl,
      ap (λ r. r.1.queues q) whole ∙ ground arith,
      λ t. refl,
    )
