-- ===== src/Proc/Admit.antt =====
-- proc.c, "Admission": whether the machine can honour what a real-time program says it needs.
-- What the manifest of the image, the host layer and the allocator answer is an argument.
pub mod Load
pub mod Settle
pub mod Levels
pub mod Whole
pub mod Promise
pub mod Answers
mod Tests
use rv.Prelude.{
  ℕ, ◌+◌, ◌-◌, ◌%◌, ◌^◌, Bool, true, false, not, beq, ◌&&◌, ◌||◌, Option, none, some, List, [], ◌∷◌,
  ◌++◌, ltb, leb, ◌==◌, if◌then◌else◌, length, get_elem?,
}
use rv.Rt.{Item, Placed, fits, misses, no_fuel, pinned_routine, permille, place_rt}
use rv.Proc.{Proc, is_exited}

-- What `rv9_rt_stats_for` fills.
pub record Stats : Type 0 where
  pub activations : ℕ
  pub max_exec_us : ℕ

-- `rv9_rt_slots_used`, `rv9_rt_slot_count`, `rv9_heap_available`, `rv9_rt_stats_for` of a task, and
-- `s_rt_derive`.
pub record Host : Type 0 where
  pub slots_used : ℕ
  pub slot_count : ℕ
  pub heap_available : ℕ
  pub stats_for : ℕ → Option Stats
  pub derive : Bool

-- What the manifest declares; `place` is RV9_PLACE_DERIVED if it has no such entry.
pub record Manifest : Type 0 where
  pub place : ℕ
  pub deadline : Option ℕ
  pub wcet : Option ℕ
  pub heap_max : Option ℕ

-- What `rt_load` fills.
pub record RtLoad : Type 0 where
  pub used : ℕ
  pub declared : ℕ
  pub measured : ℕ
  pub unknown : ℕ

abbrev pub no_load : RtLoad
no_load = record { used = 0; declared = 0; measured = 0; unknown = 0 }

abbrev pub stats_of : Host → Option ℕ → Option Stats
stats_of h none = none
stats_of h (some task) = h.stats_for task

-- `st.activations > 0` where there are statistics: the worst execution so far.
abbrev pub worst_of : Option Stats → Option ℕ
worst_of none = none
worst_of (some st) = if ltb 0 st.activations then some st.max_exec_us else none

-- `!exited && cls == RV9_CLASS_REALTIME`.
abbrev pub is_realtime : Proc → Bool
is_realtime p = not (is_exited p) && p.realtime

pub load_one : Host → Proc → RtLoad → RtLoad
load_one h p l =
    let floor = (if p.period_us == 0 then none else worst_of (stats_of h p.task)) in
    if not (is_realtime p)
    then l
    else if not (p.period_us == 0) && not (p.wcet_us == 0)
    then record l {
      used = (l.used + permille p.wcet_us p.period_us) % 2 ^ 32;
      declared = l.declared + 1;
    }
    else elim floor [
      | some worst ↦ record l {
        used = (l.used + permille worst p.period_us) % 2 ^ 32;
        measured = l.measured + 1;
      }
      | none ↦ record l { unknown = l.unknown + 1 }
    ]

pub load_from : Host → RtLoad → List Proc → RtLoad
load_from h l [] = l
load_from h l (p ∷ ps) = load_from h (load_one h p l) ps

pub rt_load : Host → List Proc → RtLoad
rt_load h ps = load_from h no_load ps

-- The limits of the source: RT_UTIL_MAX_PERMILLE, and RT_MAX_ANALYSED less the task itself.
abbrev pub rt_util_max_permille : ℕ
rt_util_max_permille = 700

abbrev pub others_analysed : ℕ
others_analysed = 7

-- `(deadline != 0 && deadline < t) ? deadline : t`.
abbrev pub deadline_within : ℕ → ℕ → ℕ
deadline_within deadline t = if not (deadline == 0) && ltb deadline t then deadline else t

abbrev pub max_exec_of : Option Stats → ℕ
max_exec_of none = 0
max_exec_of (some st) = st.max_exec_us

pub item_of : Host → Proc → Item
item_of h q = record {
  proc = some q.addr;
  c = if q.wcet_us == 0 then max_exec_of (stats_of h q.task) else q.wcet_us;
  t = q.period_us;
  d = deadline_within q.deadline_us q.period_us;
  bounded = not (q.period_us == 0);
  urgent = false;
  pin = q.rt_place;
  bound = 0;
}

-- The first real-time processes of the table, as many as there is room for.
pub items_from : ℕ → Host → List Proc → List Item
items_from room h [] = []
items_from room h (q ∷ qs) =
    let skip = items_from room h qs in
    let next = item_of h q ∷ items_from (room - 1) h qs in
    if room == 0 then [] else if is_realtime q then next else skip

abbrev pub or_zero : Option ℕ → ℕ
or_zero none = 0
or_zero (some n) = n

abbrev pub shorter_of : Option ℕ → ℕ → ℕ
shorter_of none t = t
shorter_of (some d) t = if ltb d t then d else t

-- The item of the task being admitted.
pub own_item : Manifest → ℕ → Item
own_item m interval = record {
  proc = none;
  c = or_zero m.wcet;
  t = interval;
  d = shorter_of m.deadline interval;
  bounded = true;
  urgent = false;
  pin = m.place;
  bound = 0;
}

-- A call of `rv9_rt_set_class`: the task, its level and its bound.
abbrev pub SetClass : Type 0
SetClass = ℕ × Bool × ℕ

-- The placement of one item, written back to its process.
abbrev pub settled : Item → Proc → Proc
settled it p = record p { rt_urgent = it.urgent; rt_bound_us = it.bound }

abbrev pub is_changed : Item → Proc → Bool
is_changed it p = not (beq p.rt_urgent it.urgent) || not (p.rt_bound_us == it.bound)

abbrev pub calls_for : Item → Option ℕ → List SetClass
calls_for it none = []
calls_for it (some task) = (task, it.urgent, it.bound) ∷ []

pub settle_one : ℕ → Item → List Proc → List Proc × List SetClass
settle_one a it [] = ([], [])
settle_one a it (p ∷ ps) =
    let (qs, calls) = settle_one a it ps in
    if not (p.addr == a)
    then (p ∷ qs, calls)
    else if is_changed it p
    then (settled it p ∷ ps, calls_for it p.task)
    else (p ∷ ps, [])

-- The loop over all the items but the last, which is the task being admitted.
pub settle : List Item → List Proc → List Proc × List SetClass
settle [] ps = (ps, [])
settle (it ∷ its) ps = elim it.proc [
  | none ↦ (ps, [])
  | some a ↦
      let (qs, calls) = settle_one a it ps in let (rs, more) = settle its qs in (rs, calls ++ more)
]

-- `rv9_proc_err_t`, as far as admission returns it.
pub data Denial : Type 0 where
  contract no_slot no_memory utilisation unschedulable : Denial

-- What the caller learns of an admitted task.
pub record Terms : Type 0 where
  pub wcet : ℕ
  pub deadline : ℕ
  pub urgent : Bool
  pub bound : ℕ
  pub place : ℕ

pub data Admission : Type 0 where
  denied : Denial → Admission
  admitted : Terms → List Proc → List SetClass → Admission
  no_answer : Admission

abbrev pub terms_of : Manifest → Bool → ℕ → Terms
terms_of m urgent bound = record {
  wcet = or_zero m.wcet;
  deadline = or_zero m.deadline;
  urgent = urgent;
  bound = bound;
  place = m.place;
}

abbrev pub level_of : Option Item → Bool × ℕ
level_of none = (false, 0)
level_of (some me) = (me.urgent, me.bound)

-- Once the set is placed; `n` other processes are in it.
pub placed_as : Manifest → ℕ → Placed → List Proc → Admission
placed_as m n (fits out) ps =
    let (qs, calls) = settle out ps in
    let (urgent, bound) = level_of (get_elem? out n) in admitted (terms_of m urgent bound) qs calls
placed_as m n (misses bad out) ps = denied unschedulable
placed_as m n no_fuel ps = no_answer

-- The others, and the task itself at the end.
pub workload : Host → Manifest → ℕ → List Proc → List Item
workload h m interval ps = items_from others_analysed h ps ++ own_item m interval ∷ []

pub place_all : Host → Manifest → ℕ → List Proc → Admission
place_all h m interval ps =
    if h.derive && not (interval == 0)
    then placed_as m (length (items_from others_analysed h ps))
        (place_rt (workload h m interval ps)) ps
    else admitted (terms_of m (not (m.place == pinned_routine)) 0) ps []

-- `has_deadline && interval_us != 0 && deadline > interval_us`.
abbrev pub is_longer : Option ℕ → ℕ → Bool
is_longer none interval = false
is_longer (some d) interval = not (interval == 0) && ltb interval d

-- `finish_in != 0 && wcet > finish_in`.
abbrev pub cannot_finish : Option ℕ → ℕ → Bool
cannot_finish none finish_in = false
cannot_finish (some w) finish_in = not (finish_in == 0) && ltb finish_in w

abbrev pub finish_of : Option ℕ → ℕ → ℕ
finish_of none interval = interval
finish_of (some d) interval = d

abbrev pub own_permille : Option ℕ → ℕ → ℕ
own_permille none interval = 0
own_permille (some w) interval = if interval == 0 then 0 else permille w interval

pub admit_rt : Host → Manifest → ℕ → ℕ → List Proc → Admission
admit_rt h m interval stack ps =
    let mine = own_permille m.wcet interval in
    let rest = place_all h m interval ps in
    if ltb pinned_routine m.place
    then denied contract
    else if leb h.slot_count h.slots_used
    then denied no_slot
    else if is_longer m.deadline interval
    then denied contract
    else if cannot_finish m.wcet (finish_of m.deadline interval)
    then denied contract
    else if ltb h.heap_available ((stack + or_zero m.heap_max) % 2 ^ 32)
    then denied no_memory
    else if ltb rt_util_max_permille (((rt_load h ps).used + mine) % 2 ^ 32)
    then denied utilisation
    else rest
