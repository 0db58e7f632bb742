-- ===== src/Sched/Clock.antt =====
-- sched.c: deadlines on a counter of ticks that wraps.
use rv.Prelude.{ℕ, ◌+◌, ◌%◌, ◌^◌, ◌≤◌, ◌<◌, ◌≡◌, arith, leb}
use rv.Sched.{tick_reached}

-- A deadline is found to have come exactly from its tick on, also where the counter has wrapped since
-- it was set: `d` ticks after some time `start` it is the deadline, and `e` ticks after that time it
-- is looked at, the two being less than 2 ^ 31 apart.
pub tick_reached-exact :
    (start d e : ℕ)
    → e < d + 2 ^ 31
    → d ≤ e + 2 ^ 31
    → tick_reached ((start + e) % 2 ^ 32) ((start + d) % 2 ^ 32) ≡ leb d e
tick_reached-exact start d e late early = ground arith
