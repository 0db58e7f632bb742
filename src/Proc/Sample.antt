-- ===== src/Proc/Sample.antt =====
-- proc.c: a small table of processes.
use rv.Prelude.{false, none, some, List, [], ◌∷◌}
use rv.Rt.{derived}
use rv.Proc.{Proc, active, exited}

-- A shell with a budget of 32768 bytes, of which it holds 1000.
abbrev pub shell : Proc
shell = record {
  addr = 100;
  pid = 1;
  parent = 0;
  task = some 11;
  realtime = false;
  period_us = 0;
  wcet_us = 0;
  deadline_us = 0;
  rt_urgent = false;
  rt_bound_us = 0;
  rt_place = derived;
  state = active;
  exit_status = 0;
  signals = 0;
  fault = 0;
  collecting = false;
  refs = 1;
  waited = false;
  ended_seq = 0;
  serial = 1;
  footprint = 1000;
  held = 1000;
  budget = 32768;
  ancestors = [];
  ext_footprint = 0;
  ext_held = 0;
  ext_budget = 1000000;
}

-- What it started, one that runs and one that has ended.
abbrev pub command : Proc
command = record shell {
  addr = 200;
  pid = 2;
  parent = 1;
  task = some 12;
  serial = 2;
  ancestors = 1 ∷ [];
}

abbrev pub over_with : Proc
over_with = record command {
  addr = 300;
  pid = 3;
  task = none;
  state = exited;
  refs = 0;
  serial = 3;
}

abbrev pub table : List Proc
table = over_with ∷ command ∷ shell ∷ []
