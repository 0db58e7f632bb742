-- ===== src/Proc/Admit/Load.antt =====
-- proc.c: what `rt_load` counts.
use rv.Prelude.{
  ℕ, ◌+◌, ◌*◌, ◌≤◌, ◌≡◌, inl, inr, not, ◌&&◌, none, List, [], ◌∷◌, arith, ◌==◌, if◌then◌else◌,
  Bool-cases, Option-cases,
}
use rv.Rt.{permille}
use rv.Proc.{Proc}
use rv.Proc.Admit.{
  Host, RtLoad, no_load, stats_of, worst_of, is_realtime, load_one, load_from, rt_load,
}

-- How many real-time processes are alive.
abbrev pub live_realtime : List Proc → ℕ
live_realtime [] = 0
live_realtime (p ∷ ps) = (if is_realtime p then 1 else 0) + live_realtime ps

abbrev counted : RtLoad → ℕ
counted l = l.declared + l.measured + l.unknown

permille_le : (cost interval : ℕ) → permille cost interval ≤ 1000
unfolding permille
permille_le cost interval = ground arith

load_one-counted :
    (h : Host) (p : Proc) (l : RtLoad)
    → l.used ≤ 1000 * (l.declared + l.measured)
    → (counted (load_one h p l) ≡ (if is_realtime p then 1 else 0) + counted l)
      × ((load_one h p l).used ≤ 1000 * ((load_one h p l).declared + (load_one h p l).measured))
unfolding load_one
load_one-counted h p l le = elim (Bool-cases (is_realtime p)) [
  | inr other ↦ rw other (ground arith)
  | inl mine ↦ elim (Bool-cases (not (p.period_us == 0) && not (p.wcet_us == 0))) [
    | inl known ↦ rw (mine, known) (ground (arith, permille_le p.wcet_us p.period_us))
    | inr unsaid ↦
        elim (Option-cases (if p.period_us == 0 then none else worst_of (stats_of h p.task))) [
          | inl unseen ↦ rw (mine, unsaid, unseen) (ground arith)
          | inr (worst, seen) ↦
              rw (mine, unsaid, seen) (ground (arith, permille_le worst p.period_us))
        ]
  ]
]

load_from-counted :
    (h : Host) (l : RtLoad) (ps : List Proc)
    → l.used ≤ 1000 * (l.declared + l.measured)
    → (counted (load_from h l ps) ≡ live_realtime ps + counted l)
      × ((load_from h l ps).used
          ≤ 1000 * ((load_from h l ps).declared + (load_from h l ps).measured))
unfolding load_from
load_from-counted h l [] le = (omega arith, le)
load_from-counted h l (p ∷ ps) le =
    let (a, b) = load_one-counted h p l le in
    let (c, d) = load_from-counted h (load_one h p l) ps b in (omega arith, d)

-- The three kinds of answer that `rt_load` keeps apart are a partition of the real-time processes
-- that have not ended: each is declared, measured or unaccounted, and only the first two add to the
-- load, at most 1000 permille each.
pub rt_load-counted :
    (h : Host) (ps : List Proc)
    → let l = rt_load h ps in
      (l.declared + l.measured + l.unknown ≡ live_realtime ps)
      × (l.used ≤ 1000 * (l.declared + l.measured))
unfolding rt_load
rt_load-counted h ps = let (a, b) = load_from-counted h no_load ps (omega arith) in (omega arith, b)
