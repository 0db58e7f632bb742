-- ===== src/Rt/Demand.antt =====
-- proc.c: the demand of the tasks that can run ahead of one, as the response-time analysis has it.
use native.Mathlib.Nat.{
  mul-le-mul_right, mod-eq_of_lt, le-div_iff_mul-le, div-mul-le_self, le_trans,
}
use rv.Prelude.{
  ℕ, ◌+◌, ◌-◌, ◌*◌, ◌/◌, ◌%◌, ◌^◌, ◌≤◌, ◌<◌, ◌≡◌, ◌∙◌, inl, inr, Bool, true, not, ◌&&◌, ◌||◌, List,
  [], ◌∷◌, arith, ltb, ◌==◌, if◌then◌else◌, Bool-cases, all,
}
use rv.Rt.{Item, window, demand_of, add_demands}

-- How many releases of a task with interval `t` fall into the first `w` microseconds.
abbrev pub releases : ℕ → ℕ → ℕ
releases w t = (w + t - 1) / t

-- Whether task `o`, at place `j`, can run ahead of `me`, at place `i`.
abbrev pub runs_ahead : Item → ℕ → ℕ → Item → Bool
runs_ahead me i j o = not (j == i) && o.bounded && (not me.urgent || o.urgent)

-- The work that is released ahead of `me` within `w`, over the tasks from place `j` on.
unfoldable pub ahead : Item → ℕ → ℕ → ℕ → List Item → ℕ
ahead me i w j [] = 0
ahead me i w j (o ∷ os) =
    (if runs_ahead me i j o then releases w o.t * o.c else 0) + ahead me i w (j + 1) os

-- Every bounded task has a release interval, of 32 bits.
abbrev pub timed : Item → Bool
timed o = not o.bounded || ltb 0 o.t && ltb o.t (2 ^ 32)

releases_mono : (v w t : ℕ) → 0 < t → v ≤ w → releases v t ≤ releases w t
releases_mono v w t pos le =
    (le-div_iff_mul-le pos).1 (le_trans (div-mul-le_self (v + t - 1) t) (omega arith))

pub ahead_mono :
    (me : Item) (i v w j : ℕ) (os : List Item)
    → all timed os ≡ true
    → v ≤ w
    → ahead me i v j os ≤ ahead me i w j os
unfolding ahead
ahead_mono me i v w j [] h le = omega arith
ahead_mono me i v w j (o ∷ os) h le =
    let rest = ahead_mono me i v w (j + 1) os (ground arith) le in
    elim (Bool-cases (runs_ahead me i j o)) [
      | inl a ↦
          let more = mul-le-mul_right o.c (releases_mono v w o.t (ground arith) le) in
          rw a (omega (arith, more, rest))
      | inr a ↦ rw a (omega (arith, rest))
    ]

demand_of-releases :
    (r : ℕ) (o : Item)
    → 0 < o.t
    → o.t < 2 ^ 32
    → r ≤ 2 ^ 33
    → releases (window r) o.t * o.c < 2 ^ 64
    → demand_of r o ≡ releases (window r) o.t * o.c
unfolding demand_of
demand_of-releases r o pos narrow le small =
    let w : window r ≤ 2 ^ 33 = ground arith in
    let e : (window r + o.t - 1) % 2 ^ 64 ≡ window r + o.t - 1 = mod-eq_of_lt (omega arith) in
    rw e (mod-eq_of_lt small)

-- The code's sum, which wraps at 64 bits, is the demand where that does not reach 64 bits.
pub add_demands-ahead :
    (me : Item) (i r j next : ℕ) (os : List Item)
    → all timed os ≡ true
    → r ≤ 2 ^ 33
    → next + ahead me i (window r) j os < 2 ^ 64
    → add_demands me i r j next os ≡ next + ahead me i (window r) j os
unfolding add_demands ahead
add_demands-ahead me i r j next [] h le small = omega arith
add_demands-ahead me i r j next (o ∷ os) h le small =
    let rest = ahead me i (window r) (j + 1) os in
    elim (Bool-cases (runs_ahead me i j o)) [
      | inr a ↦
          let same : (if j == i || not o.bounded
                then next
                else if me.urgent && not o.urgent
                then next
                else (next + demand_of r o) % 2 ^ 64)
              ≡ next =
            ground arith in
          rw (same, a)
            (add_demands-ahead me i r (j + 1) next os (ground arith) le (ground arith)
              ∙ omega arith)
      | inl a ↦
          let work = releases (window r) o.t * o.c in
          let small' : next + (work + rest) < 2 ^ 64 = rw a at small in
          let e : demand_of r o ≡ work =
            demand_of-releases r o (ground arith) (ground arith) le (omega arith) in
          let sum : (next + demand_of r o) % 2 ^ 64 ≡ next + work =
            rw e (mod-eq_of_lt (omega arith)) in
          let same : (if j == i || not o.bounded
                then next
                else if me.urgent && not o.urgent
                then next
                else (next + demand_of r o) % 2 ^ 64)
              ≡ next + work =
            ground arith in
          rw (same, a)
            (add_demands-ahead me i r (j + 1) (next + work) os (ground arith) le (omega arith)
              ∙ omega arith)
    ]
