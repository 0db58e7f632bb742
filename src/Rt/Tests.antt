-- ===== src/Rt/Tests.antt =====
-- proc.c: the placement of concrete loads.
use rv.Prelude.{ℕ, ◌≤◌, ◌<◌, ◌≡◌, refl, ◌≢◌, true, false, none, some, List, [], ◌∷◌, arith}
use rv.Rt.{
  Item, fits, no_fuel, derived, demand_of, add_demands, bound_loop, response_bound, level_from,
  level_meets, weigh, pick_from, change, place_rest, place_loop, place_rt,
}
use rv.Rt.Demand.{ahead}
use rv.Rt.Bound.{Sized, demand, response_bound_least}
use rv.Rt.Place.{place_rt-total}
use rv.Rt.Outcome.{place_rt-meets}
use rv.Rt.Unsettled.{whole_load, response_bound_unsettled}

-- A control loop of 200 us in each millisecond.
abbrev fast_loop : Item
fast_loop = record {
  proc = none;
  c = 200;
  t = 1000;
  d = 1000;
  bounded = true;
  urgent = true;
  pin = derived;
  bound = 0;
}

-- A slow loop of 20 ms in every 100 ms, beside which the fast one cannot be urgent.
abbrev slow_loop : Item
slow_loop = record fast_loop { proc = some 4; c = 20000; t = 100000; d = 100000 }

abbrev load : List Item
load = slow_loop ∷ fast_loop ∷ []

abbrev placed_slow : Item
placed_slow = record slow_loop { urgent = false; bound = 25000 }

abbrev placed_fast : Item
placed_fast = record fast_loop { bound = 200 }

abbrev placed : List Item
placed = placed_slow ∷ placed_fast ∷ []

load_fits : place_rt load ≡ fits placed
unfolding place_rt place_loop place_rest level_meets level_from response_bound bound_loop
    add_demands demand_of pick_from weigh change
load_fits = refl

place_rt-meets_example :
    (placed_slow.bound ≡ response_bound placed 0 placed_slow) × (placed_slow.bound ≤ placed_slow.d)
place_rt-meets_example = place_rt-meets load placed 0 placed_slow load_fits refl refl

place_rt-total_example : place_rt load ≢ no_fuel
place_rt-total_example = place_rt-total load

placed-Sized : Sized placed_slow 0 placed
unfolding ahead
placed-Sized = record {
  intervals = refl;
  cost = ground arith;
  deadline = ground arith;
  no_wrap = ground arith;
}

response_bound_least_example : response_bound placed 0 placed_slow ≤ 25000
unfolding ahead
response_bound_least_example =
    response_bound_least placed_slow 0 placed placed-Sized 25000 (ground arith)

abbrev busy_loop : Item
busy_loop = record fast_loop { c = 1; d = 100 }

response_bound_unsettled_example :
    (response_bound (busy_loop ∷ whole_load ∷ []) 0 busy_loop ≡ 65)
    × (response_bound (busy_loop ∷ whole_load ∷ []) 0 busy_loop ≤ 100)
    × ((r : ℕ) → r < demand busy_loop 0 (busy_loop ∷ whole_load ∷ []) r)
response_bound_unsettled_example =
    response_bound_unsettled busy_loop refl (omega arith) (omega arith) (omega arith)
