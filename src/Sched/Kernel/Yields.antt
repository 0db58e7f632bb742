-- ===== src/Sched/Kernel/Yields.antt =====
-- sched.c: the turns of threads that give up the processor of themselves, by `rv9k_yield`.
use rv.Prelude.{
  ℕ, zero, suc, ◌+◌, ◌^◌, ◌<◌, ◌≡◌, refl, ap, subst, ◌∙◌, inl, inr, Bool, true, false, not, ◌&&◌,
  ◌||◌, some, List, [], ◌∷◌, arith, ◌==◌, Bool-cases, Option-cases, length, get_elem?, all,
  all-get_elem?,
}
use rv.Sched.{Thread, is_runnable, is_current}
use rv.Sched.Pick.{precedes, pick_next-best}
use rv.Sched.Kernel.{Kernel, is_running, dispatch, thread_at, switch_from, reschedule}
use rv.Sched.Kernel.Rotation.{
  Waits, at_most_priority, chosen_after, dispatch-Waits, Waits-itself, switches-dispatch,
}
use rv.Sched.Kernel.Quiet.{
  Quiet, calm_at, reschedule-still, dispatch-Quiet, dispatch-calm_at, at_tick-Quiet,
  at_tick-calm_at,
}

-- Whether the thread in slot `i` has the processor after one of a series of calls of `reschedule`,
-- one at each of the ticks.
unfoldable pub runs_within : ℕ → List ℕ → Kernel → Bool
runs_within i [] k = false
runs_within i (t ∷ ts) k =
    let k' = (reschedule (record k { ticks = t })).0 in
    is_current k'.current i || runs_within i ts k'

-- The thread that has the processor does not keep it from one that was chosen before it.
gives_up :
    (n : ℕ) (k : Kernel) (i j p s : ℕ) (b : Thread)
    → Waits n k i p s
    → get_elem? k.threads j ≡ some b
    → is_runnable b ≡ true
    → all (precedes b) k.threads ≡ true
    → (j == i) ≡ false
    → (is_current k.current j && is_running (some b)) ≡ false
unfolding thread_at
gives_up n k i j p s b w at rb first other =
    let ahead = all-get_elem? (precedes b) k.threads i first w.at in
    let below = all-get_elem? (at_most_priority p) k.threads j w.highest at in
    elim (Option-cases k.current) [
      | inl e ↦ rw e refl
      | inr (c, e) ↦ elim (Bool-cases (c == j)) [
        | inr apart ↦ rw (e, apart) refl
        | inl here ↦
            let same : c ≡ j = ground arith in
            let there : thread_at k.current k.threads ≡ some b =
              ap (λ x. thread_at x k.threads) (e ∙ ap some same) ∙ at in
            let later : chosen_after s (some b) ≡ true =
              ground (arith, w.later, there, e, same, other) in
            ground (arith, later, ahead, below, w.runs, w.priority, w.seq, e)
      ]
    ]

at_tick-Waits :
    (n t : ℕ) (k : Kernel) (i p s : ℕ) → Waits n k i p s → Waits n (record k { ticks = t }) i p s
at_tick-Waits n t k i p s w = record {
  th = w.th;
  at = w.at;
  runs = w.runs;
  priority = w.priority;
  seq = w.seq;
  highest = w.highest;
  past = w.past;
  before = w.before;
  later = w.later;
}

switch_from-current :
    (i j : ℕ) (b : Thread) (k : Kernel)
    → (j == i) ≡ true
    → is_current (switch_from false (some (j, b)) k).0.current i ≡ true
unfolding switch_from dispatch
switch_from-current i j b k here =
    elim (Bool-cases (is_current k.current j && is_running (some b))) [
      | inl stays_on ↦
          let on : is_current k.current j ≡ true = ground (arith, stays_on) in
          let same : j ≡ i = ground (arith, here) in
          rw stays_on (subst (λ x. is_current k.current x ≡ true) same on)
      | inr other ↦ rw other here
    ]

switch_from-dispatch :
    (j : ℕ) (b : Thread) (k : Kernel)
    → (is_current k.current j && is_running (some b)) ≡ false
    → (switch_from false (some (j, b)) k).0 ≡ dispatch j k
unfolding switch_from
switch_from-dispatch j b k h = rw h refl

-- Threads of one priority take turns. A runnable thread, which no runnable thread exceeds in effective
-- priority and with another one chosen after it on the processor if any, has the processor after as
-- many calls of `reschedule` as there are runnable threads of its priority that were chosen no later
-- than it was, itself included, or sooner. No thread was chosen at a turn that the counter of turns
-- has not reached, and the counter does not wrap. Between the calls the clock may move, but the
-- threads do nothing else with the kernel: there is no note of an interrupt, no holder of the
-- scheduler lock, no overrun stack and no stack of a dead thread, and at none of the calls has a sleep
-- or a timeout ended or is it time for the threads to age.
pub turns-fair :
    (n : ℕ) (ts : List ℕ) (k : Kernel) (i p s : ℕ)
    → length ts ≡ n
    → Waits n k i p s
    → Quiet k
    → all (calm_at k) ts ≡ true
    → k.switches + n < 2 ^ 64
    → runs_within i ts k ≡ true
unfolding runs_within
turns-fair zero ts k i p s len w v calm small =
    absurd (omega (arith, w.before, Waits-itself zero k i p s w))
turns-fair (suc n) [] k i p s len w v calm small = absurd (omega (arith, len))
turns-fair (suc n) (t ∷ ts) k i p s len w v calm small =
    let k0 = record k { ticks = t } in
    let w0 = at_tick-Waits (suc n) t k i p s w in
    let v0 = at_tick-Quiet t k v in
    let calm0 : calm_at k0 t ≡ true = ground (arith, calm) in
    let calms : all (calm_at k0) ts ≡ true = at_tick-calm_at t k ts (ground (arith, calm)) in
    let run = reschedule-still k0 v0 calm0 in
    elim (pick_next-best k.threads) [
      | inl (e, idle) ↦
          absurd (
            ground
              (arith, all-get_elem? (λ th. not (is_runnable th)) k.threads i idle w.at, w.runs))
      | inr (j, b, e, at, rb, first) ↦
          let run' : reschedule k0 ≡ switch_from false (some (j, b)) k0 =
            run ∙ ap (λ c. switch_from false c k0) e in
          elim (Bool-cases (j == i)) [
            | inl here ↦
                let first_is : is_current (reschedule k0).0.current i ≡ true =
                  ap (λ r. is_current r.0.current i) run' ∙ switch_from-current i j b k0 here in
                ground (arith, first_is)
            | inr other ↦
                let moves = gives_up (suc n) k0 i j p s b w0 at rb first other in
                let gone : (reschedule k0).0 ≡ dispatch j k0 =
                  ap (λ r. r.0) run' ∙ switch_from-dispatch j b k0 moves in
                let rest =
                  turns-fair n ts (dispatch j k0) i p s (omega (arith, len))
                    (dispatch-Waits n k0 i j p s b w0 (omega arith) at rb first other)
                    (dispatch-Quiet j k0 v0) (dispatch-calm_at j k0 ts calms)
                    (switches-dispatch n k0 j small) in
                let later : runs_within i ts (reschedule k0).0 ≡ true =
                  ap (runs_within i ts) gone ∙ rest in
                ground (arith, later)
          ]
    ]
