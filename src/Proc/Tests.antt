-- ===== src/Proc/Tests.antt =====
-- proc.c: the table on concrete processes.
use rv.Prelude.{◌≤◌, ◌<◌, ◌≡◌, refl, ◌⊎◌, none, some, List, arith}
use rv.Proc.{Proc, find_locked, next_pid_locked}
use rv.Proc.Sample.{table}
use rv.Proc.Pids.{next_pid_locked-free}
use rv.Proc.Prune.{proc_history_max, prune_locked}
use rv.Proc.Prune.Search.{needed, dead}
use rv.Proc.Prune.Kept.{prune_locked-needed}

next_pid_locked-free_example :
    let (pid, next') = next_pid_locked 0xffff table in
    (0 < pid) × (pid ≤ 0xffff) × (find_locked pid table ≡ none) × (0 < next') × (next' ≤ 0xffff)
next_pid_locked-free_example =
    next_pid_locked-free 0xffff table (omega arith) (omega arith) (omega arith)

prune_locked-needed_example :
    (qs : List Proc) × (prune_locked table ≡ some qs)
    × (needed qs ≡ needed table)
    × ((dead qs ≤ proc_history_max) ⊎ (needed qs ≡ qs))
prune_locked-needed_example = prune_locked-needed table (refl, (refl, (refl, tt)))
