-- ===== src/Sched/Sync/Semaphores.antt =====
-- sched.c: what a semaphore counts.
use rv.Prelude.{
  ℕ, ◌+◌, ◌^◌, ◌≤◌, ◌<◌, ◌≡◌, refl, ◌∙◌, ◌⊎◌, true, false, Option, [], arith, if◌then◌else◌,
}
use rv.Sched.Kernel.{Kernel}
use rv.Sched.Sync.{Sem, returns, has_room, sem_take, sem_give, sem_give_from_isr}

-- A give that finds room adds one.
abbrev pub adds : Sem → ℕ
adds s = if has_room s then 1 else 0

abbrev pub sem_self : Sem → Sem
sem_self s = s

abbrev pub new_sem : Sem → Sem → Sem
new_sem s t = s

-- From `s` by the last look of takes, by gives and by gives of interrupts; how many takes got the
-- semaphore, and how many gives found room. No give raises the count to 2 ^ 31.
pub data Uses (s : Sem) : Sem → ℕ → ℕ → Type 0 where
  start : Uses s s 0 0
  got :
      (t t' : Sem) (taken given timeout_ms : ℕ) (self : Option ℕ) (k k' : Kernel)
      → sem_take sem_self new_sem timeout_ms self t k [] ≡ returns true t' k'
      → Uses s t taken given
      → Uses s t' (taken + 1) given
  failed :
      (t t' : Sem) (taken given timeout_ms : ℕ) (self : Option ℕ) (k k' : Kernel)
      → sem_take sem_self new_sem timeout_ms self t k [] ≡ returns false t' k'
      → Uses s t taken given
      → Uses s t' taken given
  give :
      (t : Sem) (taken given : ℕ) (k : Kernel)
      → t.count + adds t < 2 ^ 31
      → Uses s t taken given
      → Uses s (sem_give t k).0 taken (given + adds t)
  give_isr :
      (t : Sem) (taken given : ℕ) (k : Kernel)
      → t.count + adds t < 2 ^ 31
      → Uses s t taken given
      → Uses s (sem_give_from_isr t k).2 taken (given + adds t)

-- A look that ends a take.
sem_take-got :
    (t t' : Sem) (timeout_ms : ℕ) (self : Option ℕ) (k k' : Kernel)
    → sem_take sem_self new_sem timeout_ms self t k [] ≡ returns true t' k'
    → (t'.count + 1 ≡ t.count) × (t'.max ≡ t.max)
unfolding sem_take
sem_take-got t t' timeout_ms self k k' e = ground arith

sem_take-failed :
    (t t' : Sem) (timeout_ms : ℕ) (self : Option ℕ) (k k' : Kernel)
    → sem_take sem_self new_sem timeout_ms self t k [] ≡ returns false t' k'
    → (t.count ≡ 0) × (t' ≡ t)
unfolding sem_take
sem_take-failed t t' timeout_ms self k k' e = ground arith

-- However takes and gives are ordered, those of interrupts among them, where the count begins below
-- 2 ^ 31 and no give raises it that far: a semaphore's count is what it was, with the gives that found
-- room and less the takes that got it, and it stays below 2 ^ 31. Where it began within its maximum it
-- stays within it, a maximum of 0 being none.
pub Uses-conserved :
    (s t : Sem) (taken given : ℕ)
    → s.count < 2 ^ 31
    → Uses s t taken given
    → (t.count + taken ≡ s.count + given)
      × (t.count < 2 ^ 31)
      × (t.max ≡ s.max)
      × (s.max ≡ 0 ⊎ s.count ≤ s.max → t.max ≡ 0 ⊎ t.count ≤ t.max)
unfolding sem_give sem_give_from_isr
Uses-conserved s _ _ _ low start = (refl, low, refl, λ h. h)
Uses-conserved s _ _ _ low (got t t' taken given timeout_ms self k k' e u) =
    let (sum, below, same, within) = Uses-conserved s t taken given low u in
    let (less, same') = sem_take-got t t' timeout_ms self k k' e in
    (
      omega (arith, sum, less),
      omega (arith, below, less),
      same' ∙ same,
      λ h. ground (arith, within h, same', less),
    )
Uses-conserved s _ _ _ low (failed t t' taken given timeout_ms self k k' e u) =
    let (none_there, same) = sem_take-failed t t' timeout_ms self k k' e in
    rw same (Uses-conserved s t taken given low u)
Uses-conserved s _ _ _ low (give t taken given k small u) =
    let (sum, below, same, within) = Uses-conserved s t taken given low u in
    (
      ground (arith, sum),
      ground (arith, small),
      ground (arith, same),
      λ h. ground (arith, within h),
    )
Uses-conserved s _ _ _ low (give_isr t taken given k small u) =
    let (sum, below, same, within) = Uses-conserved s t taken given low u in
    (
      ground (arith, sum),
      ground (arith, small),
      ground (arith, same),
      λ h. ground (arith, within h),
    )
