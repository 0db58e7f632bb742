-- ===== src/Proc/Pids.antt =====
-- proc.c: which pid a new process gets.
use rv.Prelude.{
  ℕ, zero, suc, ◌+◌, ◌-◌, ◌≤◌, ◌<◌, ◌≡◌, refl, sym, ◌∙◌, ◌≢◌, ◌⊎◌, inl, inr, false, none, List, [],
  ◌∷◌, arith, ltb, ◌==◌, if◌then◌else◌, Bool-cases, Option-cases, length,
}
use rv.Proc.{Proc, find_locked, after, next_pid_loop, next_pid_locked}

-- What the search ends with: no pid, or one that names nobody; and where it goes on next time.
record Handed (ps : List Proc) (r : ℕ × ℕ) : Type 0 where
  free : (r.0 ≡ 0) ⊎ (find_locked r.0 ps ≡ none)
  small : r.0 ≤ 0xffff
  next_pos : 0 < r.1
  next_small : r.1 ≤ 0xffff

next_pid_loop-Handed :
    (k next : ℕ) (ps : List Proc) → 0 < next → next ≤ 0xffff → Handed ps (next_pid_loop k next ps)
unfolding next_pid_loop
next_pid_loop-Handed zero next ps pos le = record {
  free = inl refl;
  small = ground arith;
  next_pos = pos;
  next_small = le;
}
next_pid_loop-Handed (suc k) next ps pos le =
    let h = next_pid_loop-Handed k (after next) ps (ground arith) (ground arith) in
    elim (Option-cases (find_locked next ps)) [
      | inl e ↦ record {
        free = inr (ground arith);
        small = ground arith;
        next_pos = ground arith;
        next_small = ground arith;
      }
      | inr (p, e) ↦ rw (e, next_pid_loop) h
    ]

without : ℕ → List Proc → List Proc
without pid [] = []
without pid (p ∷ ps) = if p.pid == pid then without pid ps else p ∷ without pid ps

length-without_le : (pid : ℕ) (ps : List Proc) → length (without pid ps) ≤ length ps
unfolding without
length-without_le pid [] = ground arith
length-without_le pid (p ∷ ps) = ground (arith, length-without_le pid ps)

length-without :
    (pid : ℕ) (ps : List Proc) → find_locked pid ps ≢ none → length (without pid ps) < length ps
unfolding find_locked without
length-without pid [] h = ground arith
length-without pid (p ∷ ps) h = ground (arith, length-without pid ps, length-without_le pid ps)

find-without :
    (pid other : ℕ) (ps : List Proc)
    → (other == pid) ≡ false
    → find_locked other (without pid ps) ≡ find_locked other ps
unfolding find_locked without
find-without pid other [] h = refl
find-without pid other (p ∷ ps) h = ground (arith, find-without pid other ps h)

-- So many pids that name somebody are of so many processes.
taken_length :
    (n from : ℕ) (ps : List Proc)
    → ((pid : ℕ) → from ≤ pid → pid < from + n → find_locked pid ps ≢ none)
    → n ≤ length ps
taken_length zero from ps h = ground arith
taken_length (suc n) from ps h =
    let last = length-without (from + n) ps (h (from + n) (omega arith) (omega arith)) in
    let rest = taken_length n from (without (from + n) ps) (λ pid lo hi e.
      h pid lo (omega arith) (sym (find-without (from + n) pid ps (ground arith)) ∙ e)) in
    omega arith

-- A search that fails has met a process at its first pid, and fails from the next one on.
next_pid_loop-failed :
    (k next : ℕ) (ps : List Proc)
    → 0 < next
    → (next_pid_loop (suc k) next ps).0 ≡ 0
    → (find_locked next ps ≢ none) × ((next_pid_loop k (after next) ps).0 ≡ 0)
unfolding next_pid_loop
next_pid_loop-failed k next ps pos h = elim (Option-cases (find_locked next ps)) [
  | inl e ↦ absurd (ground arith)
  | inr (p, e) ↦ (ground arith, rw (e, next_pid_loop) at h)
]

-- So it has met one at each pid up to the highest.
failed-upward :
    (k next i : ℕ) (ps : List Proc)
    → 0 < next
    → i < k
    → next + i ≤ 0xffff
    → (next_pid_loop k next ps).0 ≡ 0
    → find_locked (next + i) ps ≢ none
failed-upward zero next i ps pos lt le h = absurd (omega arith)
failed-upward (suc k) next zero ps pos lt le h =
    let same : next + 0 ≡ next = omega arith in rw same (next_pid_loop-failed k next ps pos h).0
failed-upward (suc k) next (suc i) ps pos lt le h =
    let same : next + suc i ≡ suc next + i = omega arith in
    let step : after next ≡ suc next = ground arith in
    let rest = rw step at (next_pid_loop-failed k next ps pos h).1 in
    rw same (failed-upward k (suc next) i ps (omega arith) (omega arith) (omega arith) rest)

-- And it goes on from 1.
failed-wraps :
    (n k m next : ℕ) (ps : List Proc)
    → 0 < next
    → next + m ≡ 0xffff
    → n ≡ m + suc k
    → (next_pid_loop n next ps).0 ≡ 0
    → (next_pid_loop k 1 ps).0 ≡ 0
failed-wraps zero k m next ps pos top e h = absurd (omega arith)
failed-wraps (suc n) k zero next ps pos top e h =
    let step : after next ≡ 1 = ground arith in
    let same : n ≡ k = omega arith in rw (step, same) at (next_pid_loop-failed n next ps pos h).1
failed-wraps (suc n) k (suc m) next ps pos top e h =
    let step : after next ≡ suc next = ground arith in
    let rest = rw step at (next_pid_loop-failed n next ps pos h).1 in
    failed-wraps n k m (suc next) ps (omega arith) (omega arith) (omega arith) rest

-- While there are fewer processes than pids, remembered ones included, a fork gets a pid that is not
-- zero, fits 16 bits and names nobody, wherever the search starts; and it leaves a start for the
-- next search.
pub next_pid_locked-free :
    (next : ℕ) (ps : List Proc)
    → 0 < next
    → next ≤ 0xffff
    → length ps < 0xffff
    → let (pid, next') = next_pid_locked next ps in
      (0 < pid) × (pid ≤ 0xffff) × (find_locked pid ps ≡ none) × (0 < next') × (next' ≤ 0xffff)
unfolding next_pid_locked
next_pid_locked-free next ps pos le room = elim h.free [
  | inl e ↦ absurd (found e)
  | inr free ↦ (omega (arith, found), h.small, free, h.next_pos, h.next_small)
]
  where
    h : Handed ps (next_pid_loop 65536 next ps)
    h = next_pid_loop-Handed 65536 next ps pos le

    everywhere :
        (next_pid_loop 65536 next ps).0 ≡ 0
        → (pid : ℕ) → 1 ≤ pid
        → pid < 1 + 0xffff
        → find_locked pid ps ≢ none
    everywhere e pid lo hi = elim (Bool-cases (ltb pid next)) [
      | inl below ↦
          let again =
            failed-wraps 65536 next (0xffff - next) next ps pos (omega arith) (omega arith) e in
          let same : 1 + (pid - 1) ≡ pid = omega arith in
          rw same at
            (failed-upward next 1 (pid - 1) ps (omega arith) (ground arith) (omega arith) again)
      | inr above ↦
          let same : next + (pid - next) ≡ pid = ground arith in
          rw same at (failed-upward 65536 next (pid - next) ps pos (omega arith) (omega arith) e)
    ]

    found : (next_pid_loop 65536 next ps).0 ≢ 0
    found e = absurd (omega (arith, taken_length 0xffff 1 ps (everywhere e)))
