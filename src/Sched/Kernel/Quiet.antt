-- ===== src/Sched/Kernel/Quiet.antt =====
-- sched.c: `reschedule` where nothing waits for the kernel but the choice of a thread.
use rv.Prelude.{
  ℕ, ◌+◌, ◌%◌, ◌^◌, ◌≡◌, refl, inl, inr, Bool, true, false, not, ◌&&◌, Option, none, some, List, [],
  ◌∷◌, arith, ltb, Option-cases, get_elem?, all, all-get_elem?,
}
use rv.Sched.{
  Thread, age_period_ticks, elapsed, is_dead, pick_next, age_threads, is_due, wake_sleepers,
  reap_from, reap_dead, stack_intact,
}
use rv.Sched.Kernel.{
  Kernel, drain_loop, drain_pending, is_overrun, leave, enter, leaving, dispatch, housekeep,
  thread_at, switch_from, check_stack, reschedule,
}
use rv.Sched.Kernel.Slots.{all-at_slot}
use rv.Sched.Kernel.Rotation.{leaving-all}

-- A dead thread that has no stack left, or one that is not dead.
abbrev pub is_reaped : Thread → Bool
is_reaped th = elim th.stack [ none ↦ true | some words ↦ not (is_dead th) ]

-- Nothing waits for the kernel but the choice of a thread: no note of an interrupt, no holder of the
-- scheduler lock, no overrun stack and no dead thread's stack.
pub record Quiet (k : Kernel) : Type 0 where
  pub no_notes : k.pend_tail ≡ k.pend_head
  pub unlocked : k.sched_lock ≡ 0
  pub intact : all stack_intact k.threads ≡ true
  pub reaped : all is_reaped k.threads ≡ true

abbrev pub not_due : ℕ → Thread → Bool
not_due t th = not (is_due t th)

-- At tick `t` no sleep or timeout has ended, and the threads do not age.
abbrev pub calm_at : Kernel → ℕ → Bool
calm_at k t = ltb (elapsed t k.last_age_tick) age_period_ticks && all (not_due t) k.threads

reap_from-still :
    (c : Option ℕ) (i : ℕ) (ths : List Thread) → all is_reaped ths ≡ true → reap_from c i ths ≡ ths
unfolding reap_from
reap_from-still c i [] h = refl
reap_from-still c i (th ∷ ths) h =
    ground (arith, reap_from-still c (i + 1) ths, Option-cases th.stack)

wake_sleepers-still :
    (t : ℕ) (ths : List Thread) → all (not_due t) ths ≡ true → wake_sleepers t ths ≡ ths
unfolding wake_sleepers
wake_sleepers-still t [] h = refl
wake_sleepers-still t (th ∷ ths) h = ground (arith, wake_sleepers-still t ths)

-- Before the choice nothing is changed.
housekeep-still :
    (k : Kernel) → all is_reaped k.threads ≡ true → calm_at k k.ticks ≡ true → housekeep k ≡ k
unfolding housekeep reap_dead age_threads
housekeep-still k h calm =
    let same : reap_from k.current 0 k.threads ≡ k.threads =
      reap_from-still k.current 0 k.threads h in
    let young : ltb (elapsed k.ticks k.last_age_tick) age_period_ticks ≡ true = ground arith in
    let woken : wake_sleepers k.ticks k.threads ≡ k.threads =
      wake_sleepers-still k.ticks k.threads (ground arith) in
    rw (same, woken, young) refl

current-intact :
    (c : Option ℕ) (ths : List Thread)
    → all stack_intact ths ≡ true
    → is_overrun (thread_at c ths) ≡ false
unfolding thread_at
current-intact none ths h = refl
current-intact (some i) ths h = elim (Option-cases (get_elem? ths i)) [
  | inl e ↦ rw e refl
  | inr (th, e) ↦ rw e (ground (arith, all-get_elem? stack_intact ths i h e))
]

check_stack-still : (k : Kernel) → check_stack false k ≡ k
check_stack-still k = elim (Option-cases k.current) [ inl e ↦ rw e refl | inr (i, e) ↦ rw e refl ]

-- A call of `reschedule` is then the choice and the switch.
pub reschedule-still :
    (k : Kernel)
    → Quiet k
    → calm_at k k.ticks ≡ true
    → reschedule k ≡ switch_from false (pick_next k.threads) k
unfolding reschedule drain_pending drain_loop
reschedule-still k v calm =
    let drained : drain_pending k ≡ k = ground (arith, v.no_notes) in
    let whole = current-intact k.current k.threads v.intact in
    let kept = housekeep-still k v.reaped calm in
    let free : ltb 0 k.sched_lock ≡ false = ground (arith, v.unlocked) in
    rw (drained, free, whole, check_stack-still k, kept) refl

leave-not_due : (t' t : ℕ) (th : Thread) → not_due t' th ≡ true → not_due t' (leave t th) ≡ true
unfolding leave
leave-not_due t' t th h = ground arith

leave-reaped : (t : ℕ) (th : Thread) → is_reaped th ≡ true → is_reaped (leave t th) ≡ true
unfolding leave
leave-reaped t th h = ground (arith, Option-cases th.stack)

leave-intact : (t : ℕ) (th : Thread) → stack_intact th ≡ true → stack_intact (leave t th) ≡ true
unfolding leave stack_intact
leave-intact t th h = h

enter-intact : (t s : ℕ) (th : Thread) → stack_intact th ≡ true → stack_intact (enter t s th) ≡ true
unfolding enter stack_intact
enter-intact t s th h = h

enter-reaped : (t s : ℕ) (th : Thread) → is_reaped (enter t s th) ≡ true
unfolding enter
enter-reaped t s th = ground (arith, Option-cases th.stack)

enter-not_due : (t' t s : ℕ) (th : Thread) → not_due t' (enter t s th) ≡ true
unfolding enter
enter-not_due t' t s th = refl

-- What holds of every thread, and is kept by the thread that leaves and by the one that enters, holds
-- after the switch.
dispatch-all :
    (q : Thread → Bool) (j : ℕ) (k : Kernel)
    → ((t : ℕ) (th : Thread) → q th ≡ true → q (leave t th) ≡ true)
    → ((t s : ℕ) (th : Thread) → q th ≡ true → q (enter t s th) ≡ true)
    → all q k.threads ≡ true
    → all q (dispatch j k).threads ≡ true
unfolding dispatch
dispatch-all q j k leaves enters h =
    all-at_slot q q j (enter k.ticks ((k.switches + 1) % 2 ^ 64))
      (leaving k.current k.ticks k.threads) (λ th e. e) (enters k.ticks ((k.switches + 1) % 2 ^ 64))
      (leaving-all q k.ticks k.current k.threads (leaves k.ticks) h)

pub dispatch-Quiet : (j : ℕ) (k : Kernel) → Quiet k → Quiet (dispatch j k)
unfolding dispatch
dispatch-Quiet j k v = record {
  no_notes = v.no_notes;
  unlocked = v.unlocked;
  intact = dispatch-all stack_intact j k leave-intact enter-intact v.intact;
  reaped = dispatch-all is_reaped j k leave-reaped (λ t s th e. enter-reaped t s th) v.reaped;
}

pub dispatch-calm_at :
    (j : ℕ) (k : Kernel) (ts : List ℕ)
    → all (calm_at k) ts ≡ true
    → all (calm_at (dispatch j k)) ts ≡ true
unfolding dispatch
dispatch-calm_at j k [] h = refl
dispatch-calm_at j k (t ∷ ts) h =
    let rest = dispatch-calm_at j k ts (ground arith) in
    let still : all (not_due t) (dispatch j k).threads ≡ true =
      dispatch-all (not_due t) j k (leave-not_due t) (λ t' s th e. enter-not_due t t' s th)
        (ground arith) in
    ground (arith, rest, still)

pub at_tick-Quiet : (t : ℕ) (k : Kernel) → Quiet k → Quiet (record k { ticks = t })
at_tick-Quiet t k v = record {
  no_notes = v.no_notes;
  unlocked = v.unlocked;
  intact = v.intact;
  reaped = v.reaped;
}

pub at_tick-calm_at :
    (t : ℕ) (k : Kernel) (ts : List ℕ)
    → all (calm_at k) ts ≡ true
    → all (calm_at (record k { ticks = t })) ts ≡ true
at_tick-calm_at t k [] h = refl
at_tick-calm_at t k (t' ∷ ts) h = ground (arith, at_tick-calm_at t k ts)
