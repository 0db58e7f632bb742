-- ===== src/Proc/Admit/Tests.antt =====
-- proc.c: the admission of a concrete control loop.
use rv.Prelude.{◌≡◌, refl, true, false, none, some, List, [], ◌∷◌, map, arith}
use rv.Rt.{
  derived, permille, demand_of, add_demands, bound_loop, response_bound, level_from, level_meets,
  weigh, pick_from, change, place_rest, place_loop, place_rt,
}
use rv.Proc.{Proc}
use rv.Proc.Sample.{shell, table}
use rv.Proc.Admit.{
  Host, Manifest, Terms, admitted, load_one, load_from, rt_load, item_of, items_from, own_item,
  settle_one, settle, placed_as, workload, place_all, admit_rt,
}
use rv.Proc.Admit.Settle.{unplaced}
use rv.Proc.Admit.Promise.{Passed, Settled, admit_rt-promises}

-- A control loop of 200 us in each millisecond, to be admitted beside a slow one.
abbrev slow : Proc
slow = record shell {
  addr = 400;
  pid = 4;
  task = some 14;
  realtime = true;
  period_us = 100000;
  wcet_us = 20000;
}

abbrev host : Host
host = record {
  slots_used = 1;
  slot_count = 8;
  heap_available = 100000;
  stats_for = λ task. none;
  derive = true;
}

abbrev fast : Manifest
fast = record { place = derived; deadline = none; wcet = some 200; heap_max = none }

abbrev terms : Terms
terms = record { wcet = 200; deadline = 0; urgent = true; bound = 200; place = derived }

abbrev placed : List Proc
placed = record slow { rt_bound_us = 25000 } ∷ table

is_admitted :
    admit_rt host fast 1000 8192 (slow ∷ table) ≡ admitted terms placed ((14, false, 25000) ∷ [])
unfolding admit_rt rt_load load_from load_one permille place_all placed_as workload items_from
    item_of own_item settle settle_one place_rt place_loop place_rest level_meets level_from
    response_bound bound_loop add_demands demand_of pick_from weigh change
is_admitted = refl

admit_rt-promises_example :
    Passed host fast 1000 8192 (slow ∷ table)
    × Settled host fast 1000 (slow ∷ table) placed terms
    × (map unplaced placed ≡ map unplaced (slow ∷ table))
admit_rt-promises_example =
    admit_rt-promises host fast 1000 8192 (slow ∷ table) placed terms ((14, false, 25000) ∷ []) refl
      (omega arith) refl is_admitted
