-- ===== src/Sched/Tests.antt =====
-- sched.c: whom the scheduler chooses, and its clock, on concrete data.
use rv.Prelude.{
  ℕ, ◌+◌, ◌%◌, ◌^◌, ◌≡◌, refl, ◌⊎◌, true, false, not, none, some, List, [], ◌∷◌, arith, leb, ◌==◌,
  get_elem?, all,
}
use rv.Sched.{Thread, sleeping, tick_reached, is_runnable, pick_next, effective}
use rv.Sched.Pick.{precedes, pick_next-best}
use rv.Sched.Aging.{IsAged, age_times, age_times-starves}
use rv.Sched.Clock.{tick_reached-exact}
use rv.Sched.Kernel.Samples.{plain}

-- Two threads of one priority, the second chosen longer ago, and one that is asleep.
abbrev three : List Thread
three =
    record plain { last_ran_seq = 4 }
    ∷ record plain { last_ran_seq = 2 }
    ∷ record plain { status = sleeping; effective_priority = 9 }
    ∷ []

pick_next-best_example :
    (pick_next three ≡ none) × (all (λ th. not (is_runnable th)) three ≡ true)
    ⊎ ((k : ℕ) × (b : Thread) × (pick_next three ≡ some (k, b))
        × (get_elem? three k ≡ some b)
        × (is_runnable b ≡ true)
        × (all (precedes b) three ≡ true))
pick_next-best_example = pick_next-best three

-- Across the wrap of the counter.
tick_reached-exact_example :
    tick_reached ((0xffff_fff0 + 20) % 2 ^ 32) ((0xffff_fff0 + 18) % 2 ^ 32) ≡ leb 18 20
tick_reached-exact_example = tick_reached-exact 0xffff_fff0 18 20 (ground arith) (ground arith)

-- A thread of priority 1 beside one of priority 12, and five rounds of aging.
abbrev hog : Thread
hog = record plain { base_priority = 12; effective_priority = 12 }

abbrev humble : Thread
humble = record plain { base_priority = 1; effective_priority = 1 }

hog-IsAged : IsAged 12 0 hog
unfolding effective
hog-IsAged = record { base_is = refl; boost_is = refl; age_in = ground arith; current = refl }

humble-IsAged : IsAged 1 0 humble
unfolding effective
humble-IsAged = record { base_is = refl; boost_is = refl; age_in = ground arith; current = refl }

age_times-starves_example :
    (k : ℕ) × (b : Thread) × (pick_next (age_times 5 (humble ∷ hog ∷ [])) ≡ some (k, b))
    × ((k == 0) ≡ false)
age_times-starves_example =
    age_times-starves 5 (humble ∷ hog ∷ []) 0 1 1 0 12 humble hog refl refl humble-IsAged hog-IsAged
      refl (ground arith) (ground arith)
