-- ===== src/Proc/Admit/Answers.antt =====
-- proc.c: admission always answers.
use rv.Rt.Place.{place_rt-total}
use rv.Prelude.{
  ℕ, ◌+◌, ◌%◌, ◌^◌, ◌≡◌, refl, ◌≢◌, inl, inr, Bool, true, false, not, ◌&&◌, List, arith, ltb, leb,
  ◌==◌, if◌then◌else◌, Bool-cases, length,
}
use rv.Rt.{Placed, fits, misses, no_fuel, pinned_routine, place_rt}
use rv.Proc.{Proc}
use rv.Proc.Admit.{
  Host, Manifest, Denial, contract, no_slot, no_memory, utilisation, Admission, denied, no_answer,
  rt_load, rt_util_max_permille, others_analysed, items_from, or_zero, placed_as, workload,
  place_all, is_longer, cannot_finish, finish_of, own_permille, admit_rt,
}

placed_as-answers :
    (m : Manifest) (n : ℕ) (p : Placed) (ps : List Proc)
    → p ≢ no_fuel
    → placed_as m n p ps ≢ no_answer
unfolding placed_as
placed_as-answers m n (fits out) ps h e = absurd (cc)
placed_as-answers m n (misses bad out) ps h e = absurd (cc)
placed_as-answers m n no_fuel ps h e = h refl

place_all-answers :
    (h : Host) (m : Manifest) (interval : ℕ) (ps : List Proc)
    → place_all h m interval ps ≢ no_answer
unfolding place_all
place_all-answers h m interval ps e = elim (Bool-cases (h.derive && not (interval == 0))) [
  | inl on ↦
      placed_as-answers m (length (items_from others_analysed h ps))
        (place_rt (workload h m interval ps)) ps (place_rt-total (workload h m interval ps))
        (rw on at e)
  | inr off ↦ absurd (ground arith)
]

undenied :
    (b : Bool) (d : Denial) (a : Admission)
    → (if b then denied d else a) ≡ no_answer
    → a ≡ no_answer
undenied true d a h = absurd (cc)
undenied false d a h = h

-- Admission always answers, with the terms or with the reason: the rounds of the placement do not
-- run out.
pub admit_rt-answers :
    (h : Host) (m : Manifest) (interval stack : ℕ) (ps : List Proc)
    → admit_rt h m interval stack ps ≢ no_answer
unfolding admit_rt
admit_rt-answers h m interval stack ps e =
    let e1 = undenied (ltb pinned_routine m.place) contract _ e in
    let e2 = undenied (leb h.slot_count h.slots_used) no_slot _ e1 in
    let e3 = undenied (is_longer m.deadline interval) contract _ e2 in
    let e4 = undenied (cannot_finish m.wcet (finish_of m.deadline interval)) contract _ e3 in
    let e5 =
      undenied (ltb h.heap_available ((stack + or_zero m.heap_max) % 2 ^ 32)) no_memory _ e4 in
    place_all-answers h m interval ps (
      undenied
        (ltb rt_util_max_permille (((rt_load h ps).used + own_permille m.wcet interval) % 2 ^ 32))
        utilisation _ e5)
