-- ===== src/Sched/Kernel/Samples.antt =====
-- sched.c: threads and kernels for the tests.
use rv.Prelude.{ℕ, false, none, some, List, [], ◌∷◌}
use rv.Sched.{Thread, ready}
use rv.Sched.Kernel.{Kernel}

abbrev pub plain : Thread
plain = record {
  stack = none;
  name = [];
  status = ready;
  base_priority = 5;
  age = 0;
  effective_priority = 5;
  boost = 0;
  wake_at_tick = 0;
  blocked_on = none;
  has_deadline = false;
  ran_ticks = 0;
  entered_tick = 0;
  last_ran_seq = 0;
  fault = 0;
  holds = 0;
  cancel = false;
  mem_class = 0;
  held = false;
}

-- Two threads of one priority, the first chosen later.
abbrev pub two : List Thread
two = record plain { last_ran_seq = 4 } ∷ record plain { last_ran_seq = 2 } ∷ []

abbrev pub kernel_of : List Thread → (ℕ → List ℕ) → Kernel
kernel_of threads queues = record {
  threads = threads;
  current = some 0;
  ticks = 100;
  last_age_tick = 100;
  switches = 4;
  blocks = 0;
  sched_lock = 0;
  stack_faults = 0;
  pending = [];
  pend_head = 0;
  pend_tail = 0;
  pend_lost = 0;
  queues = queues;
}

abbrev pub calm : Kernel
calm = kernel_of two (λ q. [])
