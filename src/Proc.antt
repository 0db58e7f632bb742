-- ===== src/Proc.antt =====
-- components/rv9_proc/src/proc.c: the process table.
-- A descriptor is named by its address. The lock is held throughout each operation here.
pub mod Pids
pub mod Budget
pub mod Prune
pub mod Admit
pub mod Sample
mod Tests
use rv.Prelude.{
  ℕ, zero, suc, ◌+◌, Bool, true, false, Option, none, some, List, [], ◌∷◌, leb, ◌==◌, if◌then◌else◌,
}

-- `rv9_proc_state_t`.
pub data State : Type 0 where
  active waiting exited : State

-- `rv9_proc_t`, the fields that the table, the budgets and admission read; `addr` is where the
-- descriptor lies, and `ancestors` has its `n_ancestors` entries.
pub record Proc : Type 0 where
  pub addr : ℕ
  pub pid : ℕ
  pub parent : ℕ
  pub task : Option ℕ
  pub realtime : Bool
  pub period_us : ℕ
  pub wcet_us : ℕ
  pub deadline_us : ℕ
  pub rt_urgent : Bool
  pub rt_bound_us : ℕ
  pub rt_place : ℕ
  pub state : State
  pub exit_status : ℕ
  pub signals : ℕ
  pub fault : ℕ
  pub collecting : Bool
  pub refs : ℕ
  pub waited : Bool
  pub ended_seq : ℕ
  pub serial : ℕ
  pub footprint : ℕ
  pub held : ℕ
  pub budget : ℕ
  pub ancestors : List ℕ
  pub ext_footprint : ℕ
  pub ext_held : ℕ
  pub ext_budget : ℕ

abbrev pub is_exited : Proc → Bool
is_exited p = elim p.state [ exited ↦ true | active ↦ false | waiting ↦ false ]

-- `find_locked`.
pub find_locked : ℕ → List Proc → Option Proc
find_locked pid [] = none
find_locked pid (p ∷ ps) = if p.pid == pid then some p else find_locked pid ps

abbrev is_task : Option ℕ → ℕ → Bool
is_task none self = false
is_task (some t) self = t == self

-- `current_locked`; `self` is `rv9_task_self`.
pub current_locked : ℕ → List Proc → Option Proc
current_locked self [] = none
current_locked self (p ∷ ps) = if is_task p.task self then some p else current_locked self ps

-- `s_next_pid`, wrapped.
abbrev pub after : ℕ → ℕ
after pid = if leb 0xffff pid then 1 else pid + 1

-- The loop of `next_pid_locked`, with the tries that are left: the pid (0 if every one names
-- somebody) and `s_next_pid`.
pub next_pid_loop : ℕ → ℕ → List Proc → ℕ × ℕ
next_pid_loop zero next ps = (0, next)
next_pid_loop (suc tries) next ps =
    let rest = next_pid_loop tries (after next) ps in
    elim (find_locked next ps) [
      | none ↦ if next == 0 then rest else (next, after next)
      | some p ↦ rest
    ]

pub next_pid_locked : ℕ → List Proc → ℕ × ℕ
next_pid_locked next ps = next_pid_loop 65536 next ps
