-- ===== src/Sched/Kernel/Passes.antt =====
-- sched.c: the passes over the table and the switch, which leave the chains.
use rv.Sched.Kernel.Linked.{waits_on}
use rv.Prelude.{
  ℕ, ◌+◌, ◌%◌, ◌^◌, ◌≡◌, refl, ap, inl, inr, Bool, true, not, ◌&&◌, ◌||◌, Option, none, some, List,
  arith, ltb, Bool-cases, Option-cases, get_elem?,
}
use rv.Sched.{
  Thread, age_period_ticks, elapsed, top_from, age_all, age_threads, wake_sleepers, is_current,
  reap_dead,
}
use rv.Sched.Kernel.{
  Kernel, on_thread, drain_pending, faulted, stack_fault, is_overrun, is_running, leave, enter,
  leaving, dispatch, housekeep, thread_at, switch_from, check_stack, reschedule, blocked_on_of,
}
use rv.Sched.Kernel.Sound.{
  Sound, Tame, Tamed, is_nothing, Tamed-refl, Sound-Tamed, at_slot-Tamed, wake_sleepers-Tamed,
  reap_from-Tamed, age_from-Tamed,
}
use rv.Sched.Kernel.Keeps.{Sound-same, drain_pending-Sound}

age_threads-Tamed : (t last : ℕ) (ths : List Thread) → Tamed ths (age_threads t last ths).1
unfolding age_threads age_all
age_threads-Tamed t last ths = elim (Bool-cases (ltb (elapsed t last) age_period_ticks)) [
  | inl early ↦ rw early (Tamed-refl ths)
  | inr due ↦ rw due (age_from-Tamed 0 (top_from 0 none ths) ths)
]

-- The thread that runs is within its stack, or waits on nothing.
abbrev pub is_sane : Kernel → Bool
is_sane k =
    let th = thread_at k.current k.threads in not (is_overrun th) || is_nothing (blocked_on_of th)

-- The thread that is switched away from has not overrun its stack while it waits.
abbrev pub may_switch : Kernel → Bool
may_switch k = is_sane (drain_pending k)

module _ (inside : ℕ → Option ℕ) where
  pub housekeep-Sound : (k : Kernel) → Sound inside k → Sound inside (housekeep k)
  unfolding housekeep reap_dead
  housekeep-Sound k s =
      let reaped = reap_dead k.current k.threads in
      let awake = wake_sleepers k.ticks reaped in
      let after_reap : Sound inside (record k { threads = reaped }) =
        Sound-Tamed inside k _ (λ q. refl) (reap_from-Tamed k.current 0 k.threads) s in
      let after_wake : Sound inside (record k { threads = awake }) =
        Sound-Tamed inside (record k { threads = reaped }) _ (λ q. refl)
          (wake_sleepers-Tamed k.ticks reaped) after_reap in
      Sound-Tamed inside (record k { threads = awake }) _ (λ q. refl)
        (age_threads-Tamed k.ticks k.last_age_tick awake) after_wake

  -- A write to one thread that leaves what it waits on.
  pub on_thread-Sound :
      (i : ℕ) (f : Thread → Thread) (k : Kernel)
      → ((a : Thread) → get_elem? k.threads i ≡ some a → Tame a (f a))
      → Sound inside k
      → Sound inside (on_thread i f k)
  on_thread-Sound i f k h s =
      Sound-Tamed inside k (on_thread i f k) (λ q. refl) (at_slot-Tamed i f k.threads h) s

  enter-Tame : (t seq : ℕ) (a : Thread) → Tame a (enter t seq a)
  unfolding enter
  enter-Tame t seq a = record { same = refl; stays_quiet = ground arith }

  leave-Tame : (t : ℕ) (a : Thread) → Tame a (leave t a)
  unfolding leave
  leave-Tame t a = record { same = refl; stays_quiet = ground arith }

  leaving-Tamed : (o : Option ℕ) (t : ℕ) (ths : List Thread) → Tamed ths (leaving o t ths)
  leaving-Tamed none t ths = Tamed-refl ths
  leaving-Tamed (some i) t ths = at_slot-Tamed i (leave t) ths (λ a h. leave-Tame t a)

  pub enter-Sound :
      (i seq : ℕ) (k : Kernel) → Sound inside k → Sound inside (on_thread i (enter k.ticks seq) k)
  enter-Sound i seq k s =
      on_thread-Sound i (enter k.ticks seq) k (λ a h. enter-Tame k.ticks seq a) s

  dispatch-Sound : (i : ℕ) (k : Kernel) → Sound inside k → Sound inside (dispatch i k)
  unfolding dispatch
  dispatch-Sound i k s =
      let left : Sound inside (record k { threads = leaving k.current k.ticks k.threads }) =
        Sound-Tamed inside k _ (λ q. refl) (leaving-Tamed k.current k.ticks k.threads) s in
      Sound-same inside _ (dispatch i k) refl refl (
        enter-Sound i ((k.switches + 1) % 2 ^ 64)
          (record k { threads = leaving k.current k.ticks k.threads }) left)

  switch_from-Sound :
      (abandon : Bool) (o : Option (ℕ × Thread)) (k : Kernel)
      → Sound inside k
      → Sound inside (switch_from abandon o k).0
  unfolding switch_from
  switch_from-Sound abandon none k s = Sound-same inside k _ refl refl s
  switch_from-Sound abandon (some (i, th)) k s =
      elim (Bool-cases (is_current k.current i && is_running (some th))) [
        | inl best ↦ rw (best, switch_from) s
        | inr other ↦ rw (other, switch_from) (dispatch-Sound i k s)
      ]

  -- The thread that faults waits on nothing.
  check_stack-Sound :
      (overrun : Bool) (k : Kernel)
      → ((i : ℕ) → overrun ≡ true → k.current ≡ some i → waits_on k i ≡ none)
      → Sound inside k
      → Sound inside (check_stack overrun k)
  unfolding stack_fault
  check_stack-Sound overrun k free s = elim (Option-cases k.current) [
    | inl host ↦ rw (host, check_stack) s
    | inr (i, e) ↦ elim (Bool-cases overrun) [
      | inl over ↦
          let nothing : waits_on k i ≡ none = free i over e in
          rw (e, over, check_stack)
            (Sound-same inside (on_thread i faulted k) (stack_fault i k) refl refl (
              on_thread-Sound i faulted k
                (λ a at. record { same = refl; stays_quiet = λ h. ground (arith, nothing, at) }) s))
      | inr within ↦ rw (e, within, check_stack) s
    ]
  ]

  sane-free :
      (k : Kernel) (i : ℕ)
      → is_sane k ≡ true
      → is_overrun (thread_at k.current k.threads) ≡ true
      → k.current ≡ some i
      → waits_on k i ≡ none
  unfolding thread_at
  sane-free k i sane over e = elim (Option-cases (waits_on k i)) [
    | inl nowhere ↦ nowhere
    | inr (q, on) ↦ ground (arith, ap (λ o. thread_at o k.threads) e)
  ]

  pub reschedule-Sound :
      (k : Kernel)
      → is_sane (drain_pending k) ≡ true
      → Sound inside k
      → Sound inside (reschedule k).0
  unfolding reschedule
  reschedule-Sound k sane s =
      let drained = drain_pending k in
      let after_drain : Sound inside drained = drain_pending-Sound inside k s in
      elim (Bool-cases (ltb 0 drained.sched_lock)) [
        | inl held_off ↦ rw held_off after_drain
        | inr free ↦ rw free (
            switch_from-Sound _ _ _ (
              housekeep-Sound _ (
                check_stack-Sound _ drained (λ i over e. sane-free drained i sane over e)
                  after_drain)))
      ]
