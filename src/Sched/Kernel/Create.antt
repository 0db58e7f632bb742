-- ===== src/Sched/Kernel/Create.antt =====
-- sched.c: the table at the start, a new thread, the end of a thread's record, and the host's loop.
-- A pointer is an address, 0 being NULL; a name is its bytes before the NUL.
use rv.Prelude.{
  ℕ, ◌+◌, ◌-◌, ◌*◌, ◌/◌, ◌%◌, ◌^◌, Bool, true, false, not, ◌&&◌, Option, none, some, List, [], ◌∷◌,
  ◌++◌, map, ltb, ◌==◌, if◌then◌else◌, length, get_elem?, take, drop, replicate,
}
use rv.Sched.{Thread, dead, ready, is_dead, pick_next, clamp, stack_paint, stack_pad_words}
use rv.Sched.Kernel.{
  Kernel, Switch, stays, switch_to, at_slot, on_thread, drain_pending, enter, housekeep, reschedule,
}

-- RV9K_NAME_LEN.
abbrev pub name_len : ℕ
name_len = 16

-- One slot of the loop of `rv9k_init`.
abbrev pub vacate : Thread → Thread
vacate th = record th { status = dead; held = false }

unfoldable pub kernel_init : Kernel → Kernel
kernel_init k = record k {
  threads = map vacate k.threads;
  current = none;
  last_age_tick = k.ticks;
  switches = 0;
  blocks = 0;
  sched_lock = 0;
}

abbrev pub tick : Kernel → Kernel
tick k = record k { ticks = (k.ticks + 1) % 2 ^ 32 }

abbrev pub has_stack : Thread → Bool
has_stack th = elim th.stack [ none ↦ false | some words ↦ true ]

abbrev pub is_free : Thread → Bool
is_free th = is_dead th && not (has_stack th) && not th.held

-- The first slot that a thread can have.
unfoldable pub free_from : ℕ → List Thread → Option ℕ
free_from i [] = none
free_from i (th ∷ ths) = let rest = free_from (i + 1) ths in if is_free th then some i else rest

unfoldable pub stack_words : ℕ → ℕ
stack_words bytes = let words = (bytes + 3) / 4 in if ltb words 128 then 128 else words

-- What the first switch to a thread loads; `ctx_words` is CTX_WORDS.
abbrev pub frame : ℕ → ℕ → ℕ → ℕ → List ℕ
frame ctx_words trampoline fn arg = trampoline ∷ fn ∷ arg ∷ replicate (ctx_words - 3) 0

-- The word of the allocation at `base` where the frame begins: below the top, which is aligned.
unfoldable pub frame_start : ℕ → ℕ → ℕ → ℕ
frame_start ctx_words base words =
    let top = base + (stack_pad_words + words) * 4 in (top - top % 16 - base) / 4 - ctx_words

abbrev pub put_words : ℕ → List ℕ → List ℕ → List ℕ
put_words n ws xs = take n xs ++ ws ++ drop (n + length ws) xs

-- The allocation of a new thread: painted, and the frame put on it.
unfoldable pub new_stack : ℕ → ℕ → ℕ → List ℕ → List ℕ
new_stack ctx_words base words fr =
    put_words (frame_start ctx_words base words) fr
      (replicate (words + stack_pad_words) stack_paint)

unfoldable pub fresh : List ℕ → List ℕ → ℕ → Thread → Thread
fresh words name priority th = record th {
  stack = some words;
  name = take (name_len - 1) name;
  status = ready;
  base_priority = clamp priority;
  age = 0;
  effective_priority = clamp priority;
  boost = 0;
  wake_at_tick = 0;
  blocked_on = none;
  has_deadline = false;
  ran_ticks = 0;
  entered_tick = 0;
  last_ran_seq = 0;
  fault = 0;
  holds = 0;
  cancel = false;
  mem_class = 0;
  held = false;
}

-- The host's side of `rv9k_thread_create`: CTX_WORDS, the trampoline, and `s_alloc`, if it is set.
module _ (ctx_words trampoline : ℕ) (alloc : Option (ℕ → Option ℕ)) where
  abbrev pub allocate : ℕ → Option ℕ
  allocate bytes = elim alloc [ none ↦ none | some f ↦ f bytes ]

  -- The slot of the new thread, or none for NULL.
  unfoldable pub thread_create : ℕ → ℕ → List ℕ → ℕ → ℕ → Kernel → Option ℕ × Kernel
  thread_create fn arg name stack_bytes priority k =
      let words = stack_words stack_bytes in
      if fn == 0 then (none, k) else elim (free_from 0 k.threads) [
        | none ↦ (none, k)
        | some i ↦ elim (allocate ((words + stack_pad_words) * 4)) [
          | none ↦ (none, k)
          | some base ↦ (
            some i,
            on_thread i
                (fresh (new_stack ctx_words base words (frame ctx_words trampoline fn arg)) name
                  priority)
                k,
          )
        ]
      ]

abbrev pub released : Thread → Thread
released th = record th { held = false; fault = 0; name = [] }

unfoldable pub thread_release : ℕ → Kernel → Kernel
thread_release i k = on_thread i released k

-- One turn of `rv9k_serve`, up to the switch to the thread that it picked, or to the idle hook.
unfoldable pub serve_turn : Kernel → Kernel × Switch
serve_turn k =
    let kept = housekeep (drain_pending k) in
    elim (pick_next kept.threads) [
      | none ↦ (kept, stays)
      | some (i, th) ↦
          let seq = (kept.switches + 1) % 2 ^ 64 in
          (
            record kept {
              threads = at_slot i (enter kept.ticks seq) kept.threads;
              switches = seq;
              current = some i;
            },
            switch_to (some i) false,
          )
    ]

-- What the host does when it has the processor again.
abbrev pub host_resumed : Kernel → Kernel
host_resumed k = record k { current = none }

unfoldable pub preempt_point : Kernel → Kernel × Switch
preempt_point k = elim k.current [
  | none ↦ (k, stays)
  | some i ↦ elim (get_elem? k.threads i) [
    | none ↦ (k, stays)
    | some th ↦ if k.ticks == th.entered_tick then (k, stays) else reschedule k
  ]
]
