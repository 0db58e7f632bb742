-- ===== src/Sched/Aging.antt =====
-- sched.c: how far aging lifts a thread.
use rv.Prelude.{
  ℕ, zero, suc, ◌+◌, ◌≤◌, ◌<◌, ◌≡◌, refl, sym, ap, subst, ◌∙◌, inl, inr, Bool, true, false, not,
  Option, none, some, List, [], ◌∷◌, arith, ◌==◌, Bool-cases, get_elem?, all-get_elem?,
}
use rv.Sched.{
  Thread, prio_max, age_max, is_runnable, pick_next, top_from, is_top, effective, aged, age_from,
  age_all,
}
use rv.Sched.Pick.{precedes, pick_next-best}

-- A thread whose age is in bounds and whose effective priority is up to date.
pub record IsAged (base boost : ℕ) (th : Thread) : Type 0 where
  pub base_is : th.base_priority ≡ base
  pub boost_is : th.boost ≡ boost
  pub age_in : th.age ≤ age_max
  pub current : th.effective_priority ≡ effective base th.age boost

aged-IsAged :
    (top : Bool) (base boost : ℕ) (th : Thread)
    → IsAged base boost th
    → IsAged base boost (aged top th)
aged-IsAged top base boost th v = record {
  base_is = v.base_is;
  boost_is = v.boost_is;
  age_in = ground (arith, v.age_in);
  current = rw (v.base_is, v.boost_is) refl;
}

age_from-IsAged :
    (base boost n i : ℕ) (top : Option (ℕ × ℕ)) (ths : List Thread) (th : Thread)
    → get_elem? ths i ≡ some th
    → IsAged base boost th
    → (th' : Thread) × (get_elem? (age_from n top ths) i ≡ some th')
      × IsAged base boost th'
      × (th'.status ≡ th.status)
unfolding age_from
age_from-IsAged base boost n i top [] th at v = absurd (cc)
age_from-IsAged base boost n zero top (x ∷ xs) th at v =
    let same : th ≡ x = ground (arith, at) in
    let w : IsAged base boost x = subst (IsAged base boost) same v in
    elim (Bool-cases (is_runnable x)) [
      | inl runs ↦ (
        aged (is_top n top) x,
        rw runs refl,
        aged-IsAged (is_top n top) base boost x w,
        ap (λ y. y.status) (sym same),
      )
      | inr rests ↦ (x, rw rests refl, w, ap (λ y. y.status) (sym same))
    ]
age_from-IsAged base boost n (suc i) top (x ∷ xs) th at v =
    age_from-IsAged base boost (n + 1) i top xs th at v

-- `age_all`, time after time.
abbrev pub age_times : ℕ → List Thread → List Thread
age_times zero ths = ths
age_times (suc n) ths = age_times n (age_all ths)

low_bound : (base : ℕ) (th : Thread) → IsAged base 0 th → th.effective_priority ≤ base + age_max
unfolding effective
low_bound base th v = ground (arith, v.current, v.age_in)

high_bound :
    (over boost : ℕ) (th : Thread)
    → IsAged over boost th
    → over ≤ prio_max
    → over ≤ th.effective_priority
unfolding effective
high_bound over boost th w in_band = ground (arith, w.current, in_band)

-- Aging is by 10 at most, so it does not keep a thread from starving: where another that is always
-- ready to run has a base priority more than 10 above its own, a thread that no one lends a priority
-- to is not chosen, however often the threads have aged.
pub age_times-starves :
    (n : ℕ) (ths : List Thread) (i j base boost over : ℕ) (low high : Thread)
    → get_elem? ths i ≡ some low
    → get_elem? ths j ≡ some high
    → IsAged base 0 low
    → IsAged over boost high
    → is_runnable high ≡ true
    → base + age_max < over
    → over ≤ prio_max
    → (k : ℕ) × (b : Thread) × (pick_next (age_times n ths) ≡ some (k, b)) × ((k == i) ≡ false)
unfolding age_all
age_times-starves zero ths i j base boost over low high at_i at_j v w runs gap in_band =
    elim (pick_next-best ths) [
      | inl (e, idle) ↦
          absurd (ground (arith, all-get_elem? (λ th. not (is_runnable th)) ths j idle at_j, runs))
      | inr (k, b, e, at, rb, first) ↦ (
        k,
        b,
        e,
        elim (Bool-cases (k == i)) [
          | inr other ↦ other
          | inl same ↦
              let there : k ≡ i = ground (arith, same) in
              let is_low : b ≡ low = ground (arith, sym at ∙ ap (get_elem? ths) there ∙ at_i) in
              let after : precedes b high ≡ true = all-get_elem? (precedes b) ths j first at_j in
              absurd (
                ground (
                  arith,
                  ap (λ t. t.effective_priority) is_low,
                  after,
                  runs,
                  low_bound base low v,
                  high_bound over boost high w in_band,
                ))
        ],
      )
    ]
age_times-starves (suc n) ths i j base boost over low high at_i at_j v w runs gap in_band =
    let top = top_from 0 none ths in
    let (low', at_i', v', s) = age_from-IsAged base 0 0 i top ths low at_i v in
    let (high', at_j', w', s') = age_from-IsAged over boost 0 j top ths high at_j w in
    age_times-starves n (age_from 0 top ths) i j base boost over low' high' at_i' at_j' v' w'
      (ground (arith, s', runs)) gap in_band
