-- ===== src/Proc/Admit/Promise.antt =====
-- proc.c: what an admitted task is promised.
use rv.Prelude.{
  ℕ, ◌+◌, ◌%◌, ◌^◌, ◌≤◌, ◌<◌, ◌≡◌, refl, sym, ap, ap₂, ◌∙◌, Bool, true, false, not, ◌&&◌, Option,
  none, some, List, [], ◌∷◌, ◌++◌, map, arith, ltb, leb, ◌==◌, if◌then◌else◌, length, get_elem?,
  take, all,
}
use rv.Rt.{Item, fits, pinned_routine, place_rt}
use rv.Rt.Outcome.{place_rt-meets, declared, place_rt-keeps}
use rv.Proc.{Proc}
use rv.Proc.Admit.{
  Host, Manifest, Terms, Denial, contract, no_slot, no_memory, utilisation, Admission, denied,
  admitted, no_answer, rt_load, rt_util_max_permille, others_analysed, item_of, items_from, or_zero,
  shorter_of, own_item, SetClass, settle, level_of, placed_as, workload, place_all, is_longer,
  cannot_finish, finish_of, own_permille, admit_rt,
}
use rv.Proc.Admit.Levels.{
  realtime_of, distinct, items_from-realtime, workload-realtime, level_in, item_level,
}
use rv.Proc.Admit.Whole.{settle-levels, placed-procs, length-items}
use rv.Proc.Admit.Settle.{
  meets, unplaced, settle-unplaced, own-index, declared-index, place_rt-all_meet,
  placed_as-Settlement,
}

-- Every check of `admit_rt` passed.
pub record Passed (h : Host) (m : Manifest) (interval stack : ℕ) (ps : List Proc) : Type 0 where
  pub known_place : m.place ≤ pinned_routine
  pub slot_free : h.slots_used < h.slot_count
  pub deadline_fits : is_longer m.deadline interval ≡ false
  pub work_fits : cannot_finish m.wcet (finish_of m.deadline interval) ≡ false
  pub room : (stack + or_zero m.heap_max) % 2 ^ 32 ≤ h.heap_available
  pub load : ((rt_load h ps).used + own_permille m.wcet interval) % 2 ^ 32 ≤ rt_util_max_permille

not_denied :
    (b : Bool) (d : Denial) (a : Admission) (terms : Terms) (qs : List Proc) (calls : List SetClass)
    → (if b then denied d else a) ≡ admitted terms qs calls
    → (b ≡ false) × (a ≡ admitted terms qs calls)
not_denied true d a terms qs calls h = absurd (cc)
not_denied false d a terms qs calls h = (refl, h)

admit_rt-Passed :
    (h : Host) (m : Manifest) (interval stack : ℕ) (ps qs : List Proc) (terms : Terms)
    (calls : List SetClass)
    → admit_rt h m interval stack ps ≡ admitted terms qs calls
    → Passed h m interval stack ps × (place_all h m interval ps ≡ admitted terms qs calls)
unfolding admit_rt
admit_rt-Passed h m interval stack ps qs terms calls e =
    let (a, e1) = not_denied (ltb pinned_routine m.place) contract _ terms qs calls e in
    let (b, e2) = not_denied (leb h.slot_count h.slots_used) no_slot _ terms qs calls e1 in
    let (c, e3) = not_denied (is_longer m.deadline interval) contract _ terms qs calls e2 in
    let (d, e4) =
      not_denied (cannot_finish m.wcet (finish_of m.deadline interval)) contract _ terms qs calls
        e3 in
    let (f, e5) =
      not_denied (ltb h.heap_available ((stack + or_zero m.heap_max) % 2 ^ 32)) no_memory _ terms qs
        calls e4 in
    let (g, e6) =
      not_denied
        (ltb rt_util_max_permille (((rt_load h ps).used + own_permille m.wcet interval) % 2 ^ 32))
        utilisation _ terms qs calls e5 in
    (
      record {
        known_place = ground arith;
        slot_free = ground arith;
        deadline_fits = c;
        work_fits = d;
        room = ground arith;
        load = ground arith;
      },
      e6,
    )

-- The set that was placed and settled: of the first seven real-time processes of the table and of the
-- program itself, each with what it declares; with every deadline in it met; and with its levels and
-- bounds those of the table afterwards and of the answer.
pub record Settled (h : Host) (m : Manifest) (interval : ℕ) (ps qs : List Proc) (terms : Terms)
    : Type 0 where
  pub out : List Item
  pub placed : place_rt (workload h m interval ps) ≡ fits out
  pub who : map declared out ≡ map (item_of h) (take 7 (realtime_of ps)) ++ own_item m interval ∷ []
  pub all_meet : all meets out ≡ true
  pub own_meets : terms.bound ≤ shorter_of m.deadline interval
  pub levels :
      map level_in (take 7 (realtime_of qs)) ++ (none, terms.urgent, terms.bound) ∷ []
      ≡ map item_level out

-- The bound and the table of an answer.
abbrev bound_of : Admission → ℕ
bound_of (admitted terms qs calls) = terms.bound
bound_of (denied d) = 0
bound_of no_answer = 0

abbrev urgent_of : Admission → Bool
urgent_of (admitted terms qs calls) = terms.urgent
urgent_of (denied d) = false
urgent_of no_answer = false

abbrev table_of : List Proc → Admission → List Proc
table_of ps (admitted terms qs calls) = qs
table_of ps (denied d) = ps
table_of ps no_answer = ps

admit_rt-Settled :
    (h : Host) (m : Manifest) (interval : ℕ) (ps qs : List Proc) (terms : Terms)
    (calls : List SetClass)
    → h.derive ≡ true
    → 0 < interval
    → distinct ps ≡ true
    → place_all h m interval ps ≡ admitted terms qs calls
    → Settled h m interval ps qs terms × (map unplaced qs ≡ map unplaced ps)
unfolding place_all workload own_item
admit_rt-Settled h m interval ps qs terms calls on pos apart e =
    let others = items_from others_analysed h ps in
    let n = length others in
    let placement = place_rt (workload h m interval ps) in
    let guard : (h.derive && not (interval == 0)) ≡ true = ground arith in
    let e1 : placed_as m n placement ps ≡ admitted terms qs calls = rw guard at e in
    let s = placed_as-Settlement m n placement ps qs terms calls e1 in
    let (same, pins) = place_rt-keeps (workload h m interval ps) s.out s.result in
    let (me, at, alike) =
      declared-index s.out (workload h m interval ps) n (own_item m interval) same
        (own-index others (own_item m interval)) in
    let timed : me.bounded ≡ true = ap (λ (o : Item). o.bounded) alike in
    let met = place_rt-meets (workload h m interval ps) s.out n me s.result at timed in
    let answer = sym e1 ∙ s.answer in
    let level : level_of (get_elem? s.out n) ≡ (me.urgent, me.bound) = ap level_of at in
    let terms_bound : terms.bound ≡ me.bound =
      ap (λ (a : Admission). bound_of a) answer ∙ ap (λ (l : Bool × ℕ). l.1) level in
    let urgent : terms.urgent ≡ me.urgent =
      ap (λ (a : Admission). urgent_of a) answer ∙ ap (λ (l : Bool × ℕ). l.0) level in
    let who = same ∙ workload-realtime h m interval ps in
    let set = take 7 (realtime_of ps) in
    let at' : get_elem? s.out (length set) ≡ some me =
      ap (get_elem? s.out) (sym (ap length (items_from-realtime 7 h ps) ∙ length-items h set))
      ∙ at in
    let table : qs ≡ (settle s.out ps).0 = ap (λ (a : Admission). table_of ps a) answer in
    let tied = settle-levels 7 s.out ps me apart (placed-procs h m interval set s.out who) at' in
    let due : me.d ≡ shorter_of m.deadline interval = ap (λ (o : Item). o.d) alike in
    (
      record {
        out = s.out;
        placed = s.result;
        who = who;
        all_meet = place_rt-all_meet (workload h m interval ps) s.out s.result;
        own_meets = omega (arith, met.1, terms_bound, due);
        levels =
            ap₂
              (λ (l : List Proc) (o : Option ℕ × Bool × ℕ).
                map level_in (take 7 (realtime_of l)) ++ o ∷ [])
              table (ap₂ (λ u b. (none, u, b)) urgent terms_bound)
            ∙ tied;
      },
      ap (map unplaced) table ∙ settle-unplaced s.out ps,
    )

-- Admission is a promise. Where priorities are derived, the program has a release interval and no two
-- processes have one address, a program that `admit_rt` admits comes with a placement. The placement
-- is of the first seven real-time processes of the table that have not exited (all of them, if there
-- are no more) and of the program itself, each with the work, interval, deadline and pin that it has.
-- Every task in it with an interval has a response bound within its deadline; the program's own
-- reported bound is within its deadline, or its interval if that is shorter. The levels and bounds of
-- these processes in the table afterwards, and those of the answer, are the ones of the placement.
-- The program passed each of the other checks, the ceiling on the load among them, and nothing in the
-- table is changed but levels and bounds.
pub admit_rt-promises :
    (h : Host) (m : Manifest) (interval stack : ℕ) (ps qs : List Proc) (terms : Terms)
    (calls : List SetClass)
    → h.derive ≡ true
    → 0 < interval
    → distinct ps ≡ true
    → admit_rt h m interval stack ps ≡ admitted terms qs calls
    → Passed h m interval stack ps
      × Settled h m interval ps qs terms
      × (map unplaced qs ≡ map unplaced ps)
admit_rt-promises h m interval stack ps qs terms calls on pos apart e =
    let (passed, placed) = admit_rt-Passed h m interval stack ps qs terms calls e in
    let (s, kept) = admit_rt-Settled h m interval ps qs terms calls on pos apart placed in
    (passed, s, kept)
