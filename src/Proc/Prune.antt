-- ===== src/Proc/Prune.antt =====
-- proc.c, "How long a process is remembered": the bounded history of ended processes.
pub mod Search
pub mod Kept
use rv.Prelude.{
  ℕ, zero, suc, ◌+◌, Bool, true, false, not, ◌||◌, Option, none, some, List, [], ◌∷◌, ltb, ◌==◌,
  if◌then◌else◌, length,
}
use rv.Proc.{Proc, is_exited, find_locked}

-- PROC_HISTORY and PROC_HISTORY_MAX.
abbrev pub proc_history : ℕ
proc_history = 16

abbrev pub proc_history_max : ℕ
proc_history_max = 32

-- RV9_PID_NONE is the system itself, which may yet ask.
pub parent_may_wait_locked : Proc → List Proc → Bool
parent_may_wait_locked p ps =
    if p.parent == 0
    then true
    else elim (find_locked p.parent ps) [ none ↦ false | some q ↦ not (is_exited q) ]

-- `oldest == NULL || p->ended_seq < oldest->ended_seq`.
abbrev pub older : Proc → Option Proc → Option Proc
older p none = some p
older p (some o) = if ltb p.ended_seq o.ended_seq then some p else some o

pub record Survey : Type 0 where
  pub exited_count : ℕ
  pub oldest_any : Option Proc
  pub oldest_done : Option Proc

-- One descriptor in the loop of `prune_locked`; `ps` is the whole table.
pub survey_one : List Proc → Proc → Survey → Survey
survey_one ps p s =
    if not (is_exited p)
    then s
    else if not (p.refs == 0) || p.collecting
    then record s { exited_count = s.exited_count + 1 }
    else record {
      exited_count = s.exited_count + 1;
      oldest_any = older p s.oldest_any;
      oldest_done =
          if p.waited || not (parent_may_wait_locked p ps)
          then older p s.oldest_done
          else s.oldest_done;
    }

pub survey_from : List Proc → Survey → List Proc → Survey
survey_from ps s [] = s
survey_from ps s (p ∷ rest) = survey_from ps (survey_one ps p s) rest

abbrev pub no_survey : Survey
no_survey = record { exited_count = 0; oldest_any = none; oldest_done = none }

pub victim_of : Survey → Option Proc
victim_of s =
    if ltb proc_history_max s.exited_count
    then s.oldest_any
    else if ltb proc_history s.exited_count
    then s.oldest_done
    else none

pub forget : ℕ → List Proc → List Proc
forget a [] = []
forget a (p ∷ ps) = if p.addr == a then ps else p ∷ forget a ps

-- The loop of `prune_locked`, with the rounds that are left; `none` if they run out.
pub prune_loop : ℕ → List Proc → Option (List Proc)
prune_loop zero ps = none
prune_loop (suc k) ps = elim (victim_of (survey_from ps no_survey ps)) [
  | none ↦ some ps
  | some victim ↦ prune_loop k (forget victim.addr ps)
]

-- Each round forgets one descriptor.
pub prune_locked : List Proc → Option (List Proc)
prune_locked ps = prune_loop (length ps + 1) ps
