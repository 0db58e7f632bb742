-- ===== src/Rt/Bound.antt =====
-- proc.c: `response_bound` against the recurrence of the response-time analysis,
-- R = C + sum of ceil(R / T_j) C_j over the tasks that can run ahead.
use rv.Prelude.{
  ℕ, zero, suc, ◌+◌, ◌-◌, ◌^◌, ◌≤◌, ◌<◌, ◌≡◌, inl, inr, true, List, arith, ltb, ◌==◌, ltb-false,
  Bool-cases, all,
}
use rv.Rt.{Item, window, add_demands, bound_loop, clamp, response_bound}
use rv.Rt.Demand.{ahead, timed, ahead_mono, add_demands-ahead}

-- The right-hand side of the recurrence.
abbrev pub demand : Item → ℕ → List Item → ℕ → ℕ
demand me i items r = me.c + ahead me i (window r) 0 items

-- The numbers are those of a 32-bit system: intervals and costs of 32 bits, a deadline below the
-- value at which the bound is clamped, and a demand within 2 ^ 33 microseconds below 2 ^ 64.
pub record Sized (me : Item) (i : ℕ) (items : List Item) : Type 0 where
  pub intervals : all timed items ≡ true
  pub cost : me.c < 2 ^ 32
  pub deadline : me.d < 2 ^ 32 - 1
  pub no_wrap : me.c + ahead me i (2 ^ 33) 0 items < 2 ^ 64

clamp_le : (x : ℕ) → clamp x ≤ x
clamp_le x = ground arith

module _ (me : Item) (i : ℕ) (items : List Item) (s : Sized me i items) where
  round-demand : (r : ℕ) → r < 2 ^ 32 → add_demands me i r 0 me.c items ≡ demand me i items r
  round-demand r small = add_demands-ahead me i r 0 me.c items s.intervals (omega arith) (
      omega
        (arith, ahead_mono me i (window r) (2 ^ 33) 0 items s.intervals (ground arith), s.no_wrap))

  demand_mono : (v w : ℕ) → v ≤ w → demand me i items v ≤ demand me i items w
  demand_mono v w le =
      let below : window v ≤ window w = ground arith in
      omega (arith, ahead_mono me i (window v) (window w) 0 items s.intervals below)

  bound_loop_least :
      (k r top : ℕ)
      → r < 2 ^ 32
      → r ≤ top
      → demand me i items top ≤ top
      → bound_loop k me i items r ≤ top
  unfolding bound_loop
  bound_loop_least zero r top small le fix = le
  bound_loop_least (suc k) r top small le fix =
      let e = round-demand r small in
      let next = add_demands me i r 0 me.c items in
      let under : next ≤ top = omega (arith, e, demand_mono r top le, fix) in
      elim (Bool-cases (next == r)) [
        | inl same ↦ rw same le
        | inr other ↦ elim (Bool-cases (ltb me.d next)) [
          | inl late ↦ rw (other, late) under
          | inr early ↦
              let small' : next < 2 ^ 32 = omega (arith, ltb-false me.d next early, s.deadline) in
              rw (other, early) (bound_loop_least k next top small' under fix)
        ]
      ]

  -- The bound is no more than any solution of the recurrence, or of its inequality.
  pub response_bound_least :
      (top : ℕ) → demand me i items top ≤ top → response_bound items i me ≤ top
  unfolding response_bound
  response_bound_least top fix =
      let x = bound_loop 64 me i items me.c in
      let le : x ≤ top = bound_loop_least 64 me.c top s.cost (omega arith) fix in
      let c : clamp x ≤ x = clamp_le x in omega (arith, le, c)
