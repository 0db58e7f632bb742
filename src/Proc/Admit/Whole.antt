-- ===== src/Proc/Admit/Whole.antt =====
-- proc.c: the levels of the table after admission, and those of the placement.
use rv.Prelude.{
  ℕ, zero, suc, ◌≡◌, refl, sym, ap, ap₂, ◌∙◌, inl, inr, Bool, true, false, not, Option, none, some,
  List, [], ◌∷◌, ◌++◌, map, arith, ◌==◌, Bool-cases, length, get_elem?, take, all,
}
use rv.Rt.Outcome.{declared}
use rv.Rt.{Item}
use rv.Proc.{Proc}
use rv.Proc.Admit.{Host, Manifest, is_realtime, item_of, own_item, settled, settle}
use rv.Proc.Admit.Levels.{
  realtime_of, distinct, level_in, item_level, applied, Alike, applied-Alike, settle-applied,
}

abbrev procs_of : List Item → List (Option ℕ)
procs_of its = map (λ (o : Item). o.proc) its

abbrev addresses : List Proc → List (Option ℕ)
addresses ps = map (λ (p : Proc). some p.addr) ps

-- An item of another process leaves a process alone.
applied-others :
    (its : List Item) (ps : List Proc) (p : Proc)
    → procs_of its ≡ addresses ps ++ none ∷ []
    → all (λ q. not (q.addr == p.addr)) ps ≡ true
    → applied its p ≡ p
applied-others [] ps p e h = refl
applied-others (it ∷ its) [] p e h = let no_one : it.proc ≡ none = cc in rw no_one refl
applied-others (it ∷ its) (q ∷ ps) p e h =
    let his : it.proc ≡ some q.addr = cc in
    let rest : procs_of its ≡ addresses ps ++ none ∷ [] = cc in
    let apart : (p.addr == q.addr) ≡ false = ground (arith, h) in
    rw (his, apart) (applied-others its ps p rest (ground (arith, h)))

applied-skip :
    (it : Item) (its : List Item) (a : ℕ) (ps : List Proc)
    → it.proc ≡ some a
    → all (λ q. not (q.addr == a)) ps ≡ true
    → map (applied (it ∷ its)) ps ≡ map (applied its) ps
applied-skip it its a [] e h = refl
applied-skip it its a (p ∷ ps) e h =
    let apart : (p.addr == a) ≡ false = ground (arith, h) in
    ap₂ ◌∷◌ (rw (e, apart) refl) (applied-skip it its a ps e (ground (arith, h)))

-- Each process of the set has the level of its item.
applied-level :
    (its : List Item) (ps : List Proc) (me : Item)
    → distinct ps ≡ true
    → procs_of its ≡ addresses ps ++ none ∷ []
    → get_elem? its (length ps) ≡ some me
    → map level_in (map (applied its) ps) ++ (none, me.urgent, me.bound) ∷ [] ≡ map item_level its
applied-level [] [] me d e at = absurd (cc)
applied-level [] (p ∷ ps) me d e at = absurd (cc)
applied-level (it ∷ []) [] me d e at =
    let no_one : it.proc ≡ none = cc in let same : it ≡ me = cc in rw (no_one, same) refl
applied-level (it ∷ it' ∷ its) [] me d e at = absurd (cc)
applied-level (it ∷ its) (p ∷ ps) me d e at =
    let his : it.proc ≡ some p.addr = cc in
    let rest : procs_of its ≡ addresses ps ++ none ∷ [] = cc in
    let here : (p.addr == p.addr) ≡ true = ground arith in
    let apart : all (λ q. not (q.addr == p.addr)) ps ≡ true = ground (arith, d) in
    let d' : distinct ps ≡ true = ground (arith, d) in
    let first : applied (it ∷ its) p ≡ settled it p =
      rw (his, here) (applied-others its ps (settled it p) rest apart) in
    ap₂ ◌∷◌ (ap level_in first ∙ ap (λ x. (x, it.urgent, it.bound)) (sym his)) (
      ap (λ l. map level_in l ++ (none, me.urgent, me.bound) ∷ [])
        (applied-skip it its p.addr ps his apart)
      ∙ applied-level its ps me d' rest at)

realtime_of-map :
    (f : Proc → Proc) (ps : List Proc)
    → ((p : Proc) → Alike (f p) p)
    → realtime_of (map f ps) ≡ map f (realtime_of ps)
realtime_of-map f [] alike = refl
realtime_of-map f (p ∷ ps) alike =
    let rest = realtime_of-map f ps alike in
    elim (Bool-cases (is_realtime p)) [
      | inl mine ↦ rw ((alike p).1, mine) (ap (◌∷◌ (f p)) rest)
      | inr other ↦ rw ((alike p).1, other) rest
    ]

take-map : (n : ℕ) (f : Proc → Proc) (ps : List Proc) → take n (map f ps) ≡ map f (take n ps)
take-map zero f ps = refl
take-map (suc n) f [] = refl
take-map (suc n) f (p ∷ ps) = ap (◌∷◌ (f p)) (take-map n f ps)

all-realtime_of :
    (b : Proc → Bool) (ps : List Proc) → all b ps ≡ true → all b (realtime_of ps) ≡ true
all-realtime_of b [] h = refl
all-realtime_of b (p ∷ ps) h = ground (arith, all-realtime_of b ps)

distinct-realtime_of : (ps : List Proc) → distinct ps ≡ true → distinct (realtime_of ps) ≡ true
distinct-realtime_of [] d = refl
distinct-realtime_of (p ∷ ps) d =
    let apart = all-realtime_of (λ q. not (q.addr == p.addr)) ps in
    ground (arith, apart, distinct-realtime_of ps)

all-take : (b : Proc → Bool) (n : ℕ) (ps : List Proc) → all b ps ≡ true → all b (take n ps) ≡ true
all-take b zero ps h = refl
all-take b (suc n) [] h = refl
all-take b (suc n) (p ∷ ps) h = ground (arith, all-take b n ps)

distinct-take : (n : ℕ) (ps : List Proc) → distinct ps ≡ true → distinct (take n ps) ≡ true
distinct-take zero ps d = refl
distinct-take (suc n) [] d = refl
distinct-take (suc n) (p ∷ ps) d =
    let apart = all-take (λ q. not (q.addr == p.addr)) n ps in
    ground (arith, apart, distinct-take n ps)

-- After a placement of the first `n` real-time processes is settled, they have its levels.
pub settle-levels :
    (n : ℕ) (out : List Item) (ps : List Proc) (me : Item)
    → distinct ps ≡ true
    → procs_of out ≡ addresses (take n (realtime_of ps)) ++ none ∷ []
    → get_elem? out (length (take n (realtime_of ps))) ≡ some me
    → map level_in (take n (realtime_of (settle out ps).0)) ++ (none, me.urgent, me.bound) ∷ []
      ≡ map item_level out
settle-levels n out ps me d e at =
    let set = take n (realtime_of ps) in
    let moved : take n (realtime_of (settle out ps).0) ≡ map (applied out) set =
      ap (λ l. take n (realtime_of l)) (settle-applied out ps d)
      ∙ ap (take n) (realtime_of-map (applied out) ps (applied-Alike out))
      ∙ take-map n (applied out) (realtime_of ps) in
    ap (λ l. map level_in l ++ (none, me.urgent, me.bound) ∷ []) moved
    ∙ applied-level out set me (distinct-take n (realtime_of ps) (distinct-realtime_of ps d)) e at

declared-procs : (out : List Item) → procs_of (map declared out) ≡ procs_of out
declared-procs [] = refl
declared-procs (o ∷ out) = ap (◌∷◌ o.proc) (declared-procs out)

others-procs :
    (h : Host) (m : Manifest) (interval : ℕ) (ps : List Proc)
    → procs_of (map (item_of h) ps ++ own_item m interval ∷ []) ≡ addresses ps ++ none ∷ []
unfolding item_of own_item
others-procs h m interval [] = refl
others-procs h m interval (p ∷ ps) = ap (◌∷◌ (some p.addr)) (others-procs h m interval ps)

pub placed-procs :
    (h : Host) (m : Manifest) (interval : ℕ) (ps : List Proc) (out : List Item)
    → map declared out ≡ map (item_of h) ps ++ own_item m interval ∷ []
    → procs_of out ≡ addresses ps ++ none ∷ []
placed-procs h m interval ps out e =
    sym (declared-procs out) ∙ ap procs_of e ∙ others-procs h m interval ps

pub length-items : (h : Host) (ps : List Proc) → length (map (item_of h) ps) ≡ length ps
length-items h [] = refl
length-items h (p ∷ ps) = ap suc (length-items h ps)
