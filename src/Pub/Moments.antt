-- ===== src/Pub/Moments.antt =====
-- pfm.c: the writer at each load of `pfm_read`.
use rv.Pub.Coherence.{run-grows}
use rv.Prelude.{
  ℕ, zero, suc, ◌+◌, ◌%◌, ◌≤◌, ◌≡◌, refl, ap, ◌∙◌, inl, inr, true, arith, ◌==◌, Bool-cases, length,
}
use rv.Pub.{Writer, run, Schedule, load_bytes, at_most, load_rest, try_read}
use rv.Pub.Stores.{IsTidy, Kept, all_fit, run-Kept}

-- The writer at the load at time `n - 1`: all that it does before that load is done.
unfoldable pub run_until : Schedule → ℕ → Writer → Writer
run_until sched zero w = w
run_until sched (suc n) w = run (sched n) (run_until sched n w)

module _ (sched : Schedule) (w : Writer) where
  pub run_until-next :
      (t : ℕ) (v : Writer) → v ≡ run_until sched t w → run (sched t) v ≡ run_until sched (t + 1) w
  unfolding run_until
  run_until-next t v e =
      let one : suc t ≡ t + 1 = omega arith in
      ap (run (sched t)) e ∙ ap (λ n. run_until sched n w) one

  pub run_until-Kept :
      IsTidy w
      → ((t : ℕ) → all_fit (length w.cell.value) (sched t) ≡ true)
      → (n : ℕ) → Kept w (run_until sched n w)
  unfolding run_until
  run_until-Kept v fits zero = (v, refl)
  run_until-Kept v fits (suc n) =
      let (v', same) = run_until-Kept v fits n in
      let (v'', same') = run-Kept (sched n) (run_until sched n w) (rw same (fits n)) v' in
      (v'', same' ∙ same)

  pub run_until-grows : (n : ℕ) → w.stores ≤ (run_until sched n w).stores
  unfolding run_until
  run_until-grows zero = omega arith
  run_until-grows (suc n) =
      omega (arith, run_until-grows n, run-grows (sched n) (run_until sched n w))

  -- The writer `v` is that of a moment not before `t`, and `t'` is its time.
  abbrev pub IsAt : ℕ → ℕ → Writer → Type 0
  IsAt t t' v = (v ≡ run_until sched t' w) × (t ≤ t')

  load_bytes-IsAt :
      (n j t : ℕ) (v : Writer)
      → v ≡ run_until sched t w
      → IsAt t (load_bytes sched n j t v).1 (load_bytes sched n j t v).2
  unfolding load_bytes
  load_bytes-IsAt zero j t v e = (e, omega arith)
  load_bytes-IsAt (suc n) j t v e =
      let (at, later) =
        load_bytes-IsAt n (j + 1) (t + 1) (run (sched t) v) (run_until-next t v e) in
      (at, omega (arith, later))

  pub load_rest-IsAt :
      (room t : ℕ) (v : Writer)
      → v ≡ run_until sched t w
      → IsAt t (load_rest sched room t v).1 (load_rest sched room t v).2
  unfolding load_rest
  load_rest-IsAt room t v e =
      let w1 = run (sched t) v in
      let w2 = run (sched (t + 1)) w1 in
      let loads = load_bytes sched (at_most room w1.cell.len) 0 (t + 2) w2 in
      let two : t + 1 + 1 ≡ t + 2 = omega arith in
      let e2 : w2 ≡ run_until sched (t + 2) w =
        run_until-next (t + 1) w1 (run_until-next t v e) ∙ ap (λ n. run_until sched n w) two in
      let (at, later) = load_bytes-IsAt (at_most room w1.cell.len) 0 (t + 2) w2 e2 in
      (run_until-next loads.1 loads.2 at, omega (arith, later))

  pub try_read-IsAt :
      (room t : ℕ) (v : Writer)
      → v ≡ run_until sched t w
      → IsAt t (try_read sched room t v).1 (try_read sched room t v).2
  unfolding try_read
  try_read-IsAt room t v e =
      let w' = run (sched t) v in
      let e' = run_until-next t v e in
      elim (Bool-cases (w'.cell.seq % 2 == 1)) [
        | inl odd ↦ rw odd (e', omega arith)
        | inr even ↦
            let (at, later) = load_rest-IsAt room (t + 1) w' e' in
            rw even (at, omega (arith, later))
      ]
