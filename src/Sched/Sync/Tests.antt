-- ===== src/Sched/Sync/Tests.antt =====
-- sched.c: semaphores and mutexes on concrete data.
use rv.Sched.Sync.Mutexes.{Uses, start, lock, bump, Uses-exclusive}
use rv.Sched.Sync.Semaphores.{got, give, adds, Uses-conserved}
use rv.Prelude.{ℕ, ◌+◌, ◌^◌, ◌≤◌, ◌<◌, ◌≡◌, refl, ◌⊎◌, some, arith}
use rv.Sched.Kernel.Samples.{calm}
use rv.Sched.Sync.{
  Sem, Mutex, sem_init, sem_take, sem_give, mutex_init, held_once, holding, mutex_lock,
}
use rv.Sched.Sync.Semaphores
use rv.Sched.Sync.Mutexes

abbrev full : Sem
full = sem_init 1 1 7

abbrev empty : Sem
empty = sem_init 0 1 7

-- One take and two gives, the second without room.
uses :
    Semaphores.Uses full
      (sem_give (sem_give empty calm).0 calm).0
      1
      (0 + 1 + adds (sem_give empty calm).0)
unfolding sem_take sem_give
uses = Semaphores.give (sem_give empty calm).0 1 (0 + 1) calm (ground arith) (
    Semaphores.give empty 1 0 calm (ground arith)
      (Semaphores.got full empty 0 0 0 (some 0) calm calm refl Semaphores.start))

Uses-conserved_example :
    let t = (sem_give (sem_give empty calm).0 calm).0 in
    (t.count + 1 ≡ full.count + (0 + 1 + adds (sem_give empty calm).0))
    × (t.count < 2 ^ 31)
    × (t.max ≡ full.max)
    × (full.max ≡ 0 ⊎ full.count ≤ full.max → t.max ≡ 0 ⊎ t.count ≤ t.max)
Uses-conserved_example =
    Uses-conserved full (sem_give (sem_give empty calm).0 calm).0 1
      (0 + 1 + adds (sem_give empty calm).0) (omega arith) uses

-- Thread 0 has locked a new mutex.
abbrev owned_by_0 : Mutex
owned_by_0 = record { sem = sem_init 0 1 7; owner = some 0; depth = 1 }

locked : Mutexes.Uses owned_by_0 (bump 0 (λ i. 0))
unfolding mutex_lock sem_take
locked =
    Mutexes.lock 0 0 (mutex_init 7) owned_by_0 (λ i. 0) calm (holding (some 0) held_once calm) refl
      (ground arith) (Mutexes.start 7)

Uses-exclusive_example :
    ◌≡◌ {A = ℕ} 0 0
    × (owned_by_0.owner ≡ some 0)
    × (owned_by_0.depth ≡ bump 0 (λ i. 0) 0)
    × (owned_by_0.sem.count ≡ 0)
Uses-exclusive_example =
    Uses-exclusive owned_by_0 (bump 0 (λ i. 0)) 0 0 locked (ground arith) (ground arith)
