-- ===== src/Rt.antt =====
-- components/rv9_proc/src/proc.c, "Priority, derived": whether real-time work meets its deadlines,
-- and at which of the host's two priorities each task runs.
pub mod Demand
pub mod Bound
pub mod Level
pub mod Meets
pub mod Place
pub mod Outcome
pub mod Unsettled
mod Tests
use rv.Prelude.{
  ℕ, zero, suc, ◌+◌, ◌-◌, ◌*◌, ◌/◌, ◌%◌, ◌^◌, Bool, true, false, not, beq, ◌&&◌, ◌||◌, Option, none,
  some, List, [], ◌∷◌, map, ltb, leb, ◌==◌, if◌then◌else◌, length, get_elem?, set,
}

-- RV9_PLACE_DERIVED, RV9_PLACE_URGENT and RV9_PLACE_ROUTINE.
abbrev pub derived : ℕ
derived = 0

abbrev pub pinned_urgent : ℕ
pinned_urgent = 1

abbrev pub pinned_routine : ℕ
pinned_routine = 2

-- `rt_item_t`; `proc` is the address that `p` has, or `none` for the task being admitted.
pub record Item : Type 0 where
  pub proc : Option ℕ
  pub c : ℕ
  pub t : ℕ
  pub d : ℕ
  pub bounded : Bool
  pub urgent : Bool
  pub pin : ℕ
  pub bound : ℕ

-- `permille`, its product in 64 bits.
unfoldable pub permille : ℕ → ℕ → ℕ
permille cost interval =
    let u = cost * 1000 % 2 ^ 64 / interval in
    if interval == 0 then 0 else if ltb 1000 u then 1000 else u % 2 ^ 32

-- `(r == 0) ? 1 : r`.
abbrev pub window : ℕ → ℕ
window r = if r == 0 then 1 else r

-- `((window + o->t - 1) / o->t) * o->c` in 64 bits.
unfoldable pub demand_of : ℕ → Item → ℕ
demand_of r o = (window r + o.t - 1) % 2 ^ 64 / o.t * o.c % 2 ^ 64

-- The inner loop of `response_bound` from task `j` on.
unfoldable pub add_demands : Item → ℕ → ℕ → ℕ → ℕ → List Item → ℕ
add_demands me i r j next [] = next
add_demands me i r j next (o ∷ os) =
    add_demands me i r (j + 1)
      (if j == i || not o.bounded
        then next
        else if me.urgent && not o.urgent
        then next
        else (next + demand_of r o) % 2 ^ 64)
      os

-- The outer loop of `response_bound`, with the rounds that are left.
unfoldable pub bound_loop : ℕ → Item → ℕ → List Item → ℕ → ℕ
bound_loop zero me i items r = r
bound_loop (suc k) me i items r =
    let next = add_demands me i r 0 me.c items in
    let rest = bound_loop k me i items next in
    if next == r then r else if ltb me.d next then next else rest

-- `(r > UINT32_MAX) ? UINT32_MAX : r`.
abbrev pub clamp : ℕ → ℕ
clamp r = if ltb (2 ^ 32 - 1) r then 2 ^ 32 - 1 else r

unfoldable pub response_bound : List Item → ℕ → Item → ℕ
response_bound items i me = clamp (bound_loop 64 me i items me.c)

-- The loop of `level_meets` from task `i` on, with the number of tasks that are left: the items with
-- their bounds, and the first task that misses its deadline.
unfoldable pub level_from : ℕ → ℕ → Bool → List Item → List Item × Option ℕ
level_from zero i urgent items = (items, none)
level_from (suc k) i urgent items = elim (get_elem? items i) [
  | none ↦ (items, none)
  | some me ↦
      let b = response_bound items i me in
      let items' = set items i (record me { bound = b }) in
      let skip = level_from k (i + 1) urgent items in
      let next = level_from k (i + 1) urgent items' in
      if not me.bounded || not (beq me.urgent urgent)
      then skip
      else if ltb me.d b
      then (items', some i)
      else next
]

unfoldable pub level_meets : List Item → Bool → List Item × Option ℕ
level_meets items urgent = level_from (length items) 0 urgent items

-- The victim and its deadline, and how many urgent tasks are bounded.
abbrev pub Choice : Type 0
Choice = Option (ℕ × ℕ) × ℕ

-- `victim < 0 || items[i].d > items[victim].d`.
abbrev pub longer : ℕ → Item → Option (ℕ × ℕ) → Option (ℕ × ℕ)
longer j o none = some (j, o.d)
longer j o (some (v, d)) = if ltb d o.d then some (j, o.d) else some (v, d)

-- One task in the loop that looks for a victim.
unfoldable pub weigh : ℕ → Item → Choice → Choice
weigh j o (victim, count) =
    if not o.bounded || not o.urgent
    then (victim, count)
    else if not (o.pin == derived)
    then (victim, count + 1)
    else (longer j o victim, count + 1)

unfoldable pub pick_from : ℕ → Choice → List Item → Choice
pick_from j choice [] = choice
pick_from j choice (o ∷ os) = pick_from (j + 1) (weigh j o choice) os

-- How `place_rt` ends: with every deadline met, or with a task that misses its own.
pub data Placed : Type 0 where
  fits : List Item → Placed
  misses : ℕ → List Item → Placed
  no_fuel : Placed

abbrev pub demote : Item → Item
demote o = record o { urgent = false }

unfoldable pub change : ℕ → (Item → Item) → List Item → List Item
change i f [] = []
change zero f (o ∷ os) = f o ∷ os
change (suc i) f (o ∷ os) = o ∷ change i f os

-- `if (!level_meets(items, n, false, &bad)) return bad; return -1`.
unfoldable pub place_rest : List Item → Placed
place_rest items = elim (level_meets items false).1 [
  | none ↦ fits (level_meets items false).0
  | some bad ↦ misses bad (level_meets items false).0
]

-- The `while` loop of `place_rt`.
unfoldable pub place_loop : ℕ → List Item → Placed
place_loop zero items = no_fuel
place_loop (suc f) items =
    let items' = (level_meets items true).0 in
    let choice = pick_from 0 (none, 0) items' in
    elim (level_meets items true).1 [
      | none ↦ place_rest items'
      | some bad ↦ elim choice.0 [
        | none ↦ misses bad items'
        | some (victim, d) ↦
            let rest = place_loop f (change victim demote items') in
            if leb choice.1 1 then misses bad items' else rest
      ]
    ]

abbrev pub start_level : Item → Item
start_level o = record o { urgent = not (o.pin == pinned_routine) }

-- Each round moves one task, so one more round than there are tasks is enough.
unfoldable pub place_rt : List Item → Placed
place_rt items = place_loop (length items + 1) (map start_level items)
