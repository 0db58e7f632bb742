-- ===== src/Sched/Kernel/Rotation.antt =====
-- sched.c: what a switch to another thread leaves before a thread that waits for its turn.
use rv.Sched.Kernel.Slots.{at_slot_self, at_slot-other, all-at_slot, all-at_slot_one}
use rv.Sched.Pick.{precedes}
use rv.Prelude.{
  ℕ, zero, suc, ◌+◌, ◌%◌, ◌^◌, ◌≤◌, ◌<◌, ◌≡◌, refl, ◌∙◌, inl, inr, Bool, true, false, not, ◌&&◌,
  ◌||◌, Option, none, some, List, [], ◌∷◌, arith, ltb, leb, ◌==◌, if◌then◌else◌, Bool-cases,
  get_elem?, all, all-get_elem?,
}
use rv.Sched.{Thread, is_runnable, is_current}
use rv.Sched.Kernel.{Kernel, at_slot, is_running, leave, enter, leaving, dispatch, thread_at}

-- A runnable thread of priority `p` that was chosen no later than `s`.
abbrev counts : ℕ → ℕ → Thread → Bool
counts p s th = is_runnable th && th.effective_priority == p && leb th.last_ran_seq s

-- How many there are.
abbrev pub queue_before : ℕ → ℕ → List Thread → ℕ
queue_before p s [] = 0
queue_before p s (th ∷ ths) = (if counts p s th then 1 else 0) + queue_before p s ths

-- No runnable thread has a higher priority.
abbrev pub at_most_priority : ℕ → Thread → Bool
at_most_priority p th = not (is_runnable th) || leb th.effective_priority p

-- The thread was chosen at a turn that has been.
abbrev pub chosen_by : ℕ → Thread → Bool
chosen_by s th = leb th.last_ran_seq s

queue_before-neutral :
    (p s i : ℕ) (f : Thread → Thread) (ths : List Thread)
    → ((th : Thread) → counts p s (f th) ≡ counts p s th)
    → queue_before p s (at_slot i f ths) ≡ queue_before p s ths
unfolding at_slot
queue_before-neutral p s i f [] h = refl
queue_before-neutral p s zero f (th ∷ ths) h = rw (h th) refl
queue_before-neutral p s (suc i) f (th ∷ ths) h = rw (queue_before-neutral p s i f ths h) refl

queue_before-gone :
    (p s i : ℕ) (f : Thread → Thread) (ths : List Thread) (b : Thread)
    → get_elem? ths i ≡ some b
    → counts p s b ≡ true
    → counts p s (f b) ≡ false
    → queue_before p s (at_slot i f ths) + 1 ≡ queue_before p s ths
unfolding at_slot
queue_before-gone p s i f [] b at c g = absurd (cc)
queue_before-gone p s zero f (th ∷ ths) b at c g = ground arith
queue_before-gone p s (suc i) f (th ∷ ths) b at c g =
    let rest = queue_before-gone p s i f ths b at c g in omega (arith, rest)

-- What a turn leaves alone in every thread.
leave-counts : (p s t : ℕ) (th : Thread) → counts p s (leave t th) ≡ counts p s th
unfolding leave
leave-counts p s t th = ground arith

-- The same for the choice.
pub record Alike (a b : Thread) : Type 0 where
  pub runs : is_runnable a ≡ is_runnable b
  pub priority : a.effective_priority ≡ b.effective_priority
  pub seq : a.last_ran_seq ≡ b.last_ran_seq

leave-Alike : (t : ℕ) (th : Thread) → Alike (leave t th) th
unfolding leave
leave-Alike t th = record { runs = ground arith; priority = refl; seq = refl }

leaving-queue_before :
    (p s t : ℕ) (c : Option ℕ) (ths : List Thread)
    → queue_before p s (leaving c t ths) ≡ queue_before p s ths
leaving-queue_before p s t none ths = refl
leaving-queue_before p s t (some c) ths =
    queue_before-neutral p s c (leave t) ths (leave-counts p s t)

pub leaving-all :
    (q : Thread → Bool) (t : ℕ) (c : Option ℕ) (ths : List Thread)
    → ((th : Thread) → q th ≡ true → q (leave t th) ≡ true)
    → all q ths ≡ true
    → all q (leaving c t ths) ≡ true
leaving-all q t none ths keep h = h
leaving-all q t (some c) ths keep h = all-at_slot q q c (leave t) ths (λ th e. e) keep h

pub leaving-at :
    (t i : ℕ) (c : Option ℕ) (ths : List Thread) (th : Thread)
    → get_elem? ths i ≡ some th
    → (th' : Thread) × (get_elem? (leaving c t ths) i ≡ some th') × Alike th' th
leaving-at t i none ths th at = (th, at, record { runs = refl; priority = refl; seq = refl })
leaving-at t i (some c) ths th at = elim (Bool-cases (c == i)) [
  | inr other ↦ (
    th,
    at_slot-other c i (leave t) ths other ∙ at,
    record { runs = refl; priority = refl; seq = refl },
  )
  | inl same ↦
      let here : c ≡ i = ground arith in
      (leave t th, rw here (at_slot_self i (leave t) ths th at), leave-Alike t th)
]

-- The thread that has the processor was chosen after `s`.
abbrev pub chosen_after : ℕ → Option Thread → Bool
chosen_after s none = true
chosen_after s (some th) = not (is_running (some th)) || ltb s th.last_ran_seq

-- The thread in slot `i`, of priority `p` and chosen last at turn `s`, waits among threads of that
-- priority at most, each of them chosen at a turn that has been, with at most `n` to go before it or
-- with it. If another thread has the processor, that one was chosen later.
pub record Waits (n : ℕ) (k : Kernel) (i p s : ℕ) : Type 0 where
  pub th : Thread
  pub at : get_elem? k.threads i ≡ some th
  pub runs : is_runnable th ≡ true
  pub priority : th.effective_priority ≡ p
  pub seq : th.last_ran_seq ≡ s
  pub highest : all (at_most_priority p) k.threads ≡ true
  pub past : all (chosen_by k.switches) k.threads ≡ true
  pub before : queue_before p s k.threads ≤ n
  pub later : (is_current k.current i || chosen_after s (thread_at k.current k.threads)) ≡ true

leave-highest :
    (p t : ℕ) (th : Thread) → at_most_priority p th ≡ true → at_most_priority p (leave t th) ≡ true
unfolding leave
leave-highest p t th h = ground arith

leave-past : (s t : ℕ) (th : Thread) → chosen_by s th ≡ true → chosen_by s (leave t th) ≡ true
unfolding leave
leave-past s t th h = h

-- After a turn that goes to another thread there is one fewer before it.
pub dispatch-Waits :
    (n : ℕ) (k : Kernel) (i j p s : ℕ) (b : Thread)
    → Waits (suc n) k i p s
    → k.switches + 1 < 2 ^ 64
    → get_elem? k.threads j ≡ some b
    → is_runnable b ≡ true
    → all (precedes b) k.threads ≡ true
    → (j == i) ≡ false
    → Waits n (dispatch j k) i p s
unfolding dispatch enter thread_at
dispatch-Waits n k i j p s b w small at rb first other =
    let t = k.ticks in
    let wide : (k.switches + 1) % 2 ^ 64 ≡ k.switches + 1 = omega arith in
    let ths = leaving k.current t k.threads in
    let go = enter t ((k.switches + 1) % 2 ^ 64) in
    let (th', at', alike) = leaving-at t i k.current k.threads w.th w.at in
    let (b', atb, alike_b) = leaving-at t j k.current k.threads b at in
    let ahead = all-get_elem? (precedes b) k.threads i first w.at in
    let below = all-get_elem? (at_most_priority p) k.threads j w.highest at in
    let old = all-get_elem? (chosen_by k.switches) k.threads i w.past w.at in
    let counted : counts p s b' ≡ true =
      ground (arith, alike_b.runs, alike_b.priority, alike_b.seq, w.runs, w.priority, w.seq) in
    let passed : counts p s (go b') ≡ false = ground (arith, wide, w.seq) in
    let fewer = queue_before-gone p s j go ths b' atb counted passed in
    let same = leaving-queue_before p s t k.current k.threads in
    record {
      th = th';
      at = at_slot-other j i go ths other ∙ at';
      runs = alike.runs ∙ w.runs;
      priority = alike.priority ∙ w.priority;
      seq = alike.seq ∙ w.seq;
      highest =
          all-at_slot_one (at_most_priority p) (at_most_priority p) j go ths b' (λ x e. e) atb
            (ground (arith, alike_b.priority, alike_b.runs))
            (leaving-all (at_most_priority p) t k.current k.threads (leave-highest p t) w.highest);
      past =
          all-at_slot_one (chosen_by k.switches) (chosen_by ((k.switches + 1) % 2 ^ 64)) j go ths b'
            (λ x e. ground (arith, wide)) atb (ground arith)
            (leaving-all (chosen_by k.switches) t k.current k.threads (leave-past k.switches t)
              w.past);
      before = omega (arith, fewer, same, w.before);
      later = rw (at_slot_self j go ths b' atb) (ground (arith, wide, old, w.seq));
    }

queue_before-at :
    (p s i : ℕ) (ths : List Thread) (th : Thread)
    → get_elem? ths i ≡ some th
    → counts p s th ≡ true
    → 0 < queue_before p s ths
queue_before-at p s i [] th at c = absurd (cc)
queue_before-at p s zero (t ∷ ths) th at c = ground arith
queue_before-at p s (suc i) (t ∷ ths) th at c =
    let rest = queue_before-at p s i ths th at c in omega (arith, rest)

pub Waits-itself :
    (n : ℕ) (k : Kernel) (i p s : ℕ) → Waits n k i p s → 0 < queue_before p s k.threads
Waits-itself n k i p s w =
    queue_before-at p s i k.threads w.th w.at (ground (arith, w.runs, w.priority, w.seq))

pub switches-dispatch :
    (n : ℕ) (k : Kernel) (j : ℕ)
    → k.switches + suc n < 2 ^ 64
    → (dispatch j k).switches + n < 2 ^ 64
unfolding dispatch
switches-dispatch n k j small = omega arith
