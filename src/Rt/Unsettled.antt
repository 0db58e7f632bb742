-- ===== src/Rt/Unsettled.antt =====
-- proc.c: where `response_bound` stops before its fixed point.
use rv.Prelude.{ℕ, zero, suc, ◌+◌, ◌-◌, ◌*◌, ◌^◌, ◌≤◌, ◌<◌, ◌≡◌, true, some, [], ◌∷◌, arith}
use rv.Rt.{Item, derived, demand_of, add_demands, bound_loop, response_bound}
use rv.Rt.Demand.{ahead}
use rv.Rt.Bound.{demand}

-- A task with one microsecond of work in every microsecond, by the end of it: c = t = d = 1.
abbrev pub whole_load : Item
whole_load = record {
  proc = some 1;
  c = 1;
  t = 1;
  d = 1;
  bounded = true;
  urgent = true;
  pin = derived;
  bound = 0;
}

demand_of-whole : (r : ℕ) → 0 < r → r < 2 ^ 32 → demand_of r whole_load ≡ r
unfolding demand_of
demand_of-whole r pos small = ground (arith)

module _ (me : Item) (alike : me.urgent ≡ true) where
  ahead-whole : (r : ℕ) → 0 < r → demand me 0 (me ∷ whole_load ∷ []) r ≡ me.c + r
  unfolding ahead
  ahead-whole r pos = ground (arith)

  add_demands-whole :
      (r : ℕ)
      → 0 < r
      → me.c + r < 2 ^ 32
      → add_demands me 0 r 0 me.c (me ∷ whole_load ∷ []) ≡ me.c + r
  unfolding add_demands
  add_demands-whole r pos small = rw (alike, demand_of-whole r pos (omega arith)) (omega arith)

  bound_loop-whole :
      (k r : ℕ)
      → 0 < r
      → 0 < me.c
      → r + k * me.c ≤ me.d
      → me.d < 2 ^ 32
      → bound_loop k me 0 (me ∷ whole_load ∷ []) r ≡ r + k * me.c
  unfolding bound_loop
  bound_loop-whole zero r pos work room small = omega arith
  bound_loop-whole (suc k) r pos work room small =
      let more : suc k * me.c ≡ me.c + k * me.c = omega arith in
      let e = add_demands-whole r pos (omega (arith, more)) in
      let rest = bound_loop-whole k (me.c + r) (omega arith) work (omega (arith, more)) small in
      rw (e, rest) (ground (arith, more))

-- A task that starts urgent, with work to do, first in the set and beside one urgent task that has one
-- microsecond of work in every microsecond (c = t = d = 1), has no response time: no time is enough
-- for its work and the other's. Where its deadline is sixty-five times its work or more, below
-- 2 ^ 32 - 1 microseconds, the analysis still gives it the bound of sixty-five times its work, which
-- is within its deadline.
pub response_bound_unsettled :
    (me : Item)
    → me.urgent ≡ true
    → 0 < me.c
    → 65 * me.c ≤ me.d
    → me.d < 2 ^ 32 - 1
    → (response_bound (me ∷ whole_load ∷ []) 0 me ≡ 65 * me.c)
      × (response_bound (me ∷ whole_load ∷ []) 0 me ≤ me.d)
      × ((r : ℕ) → r < demand me 0 (me ∷ whole_load ∷ []) r)
unfolding response_bound ahead
response_bound_unsettled me alike work room small = (bound, rw bound room, beyond)
  where
    bound : response_bound (me ∷ whole_load ∷ []) 0 me ≡ 65 * me.c
    bound =
        rw (bound_loop-whole me alike 64 me.c work work (omega arith) (omega arith)) (ground arith)

    beyond : (r : ℕ) → r < demand me 0 (me ∷ whole_load ∷ []) r
    beyond zero = rw alike (ground arith)
    beyond (suc r) = rw (ahead-whole me alike (suc r) (omega arith)) (omega arith)
