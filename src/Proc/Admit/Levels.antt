-- ===== src/Proc/Admit/Levels.antt =====
-- proc.c: which processes admission places, and the levels that it writes back to the table.
use rv.Prelude.{
  ℕ, zero, suc, ◌-◌, ◌≡◌, refl, sym, ap, ap₂, subst, ◌∙◌, inl, inr, Bool, true, false, not, ◌&&◌,
  Option, none, some, List, [], ◌∷◌, ◌++◌, map, arith, ◌==◌, if◌then◌else◌, Bool-cases,
  Option-cases, take, all,
}
use rv.Rt.{Item}
use rv.Rt.Outcome.{declared}
use rv.Proc.{Proc}
use rv.Proc.Admit.{
  Host, Manifest, is_realtime, item_of, items_from, own_item, settled, is_changed, settle_one,
  settle, workload,
}

-- The real-time processes of the table that have not exited, in its order.
abbrev pub realtime_of : List Proc → List Proc
realtime_of [] = []
realtime_of (p ∷ ps) = let rest = realtime_of ps in if is_realtime p then p ∷ rest else rest

-- No two processes have one address.
abbrev pub distinct : List Proc → Bool
distinct [] = true
distinct (p ∷ ps) = all (λ q. not (q.addr == p.addr)) ps && distinct ps

pub items_from-realtime :
    (r : ℕ) (h : Host) (ps : List Proc)
    → items_from r h ps ≡ map (item_of h) (take r (realtime_of ps))
unfolding items_from
items_from-realtime zero h [] = refl
items_from-realtime (suc r) h [] = refl
items_from-realtime zero h (p ∷ ps) = refl
items_from-realtime (suc r) h (p ∷ ps) =
    let one : suc r - 1 ≡ r = omega arith in
    let more : (suc r == 0) ≡ false = ground arith in
    elim (Bool-cases (is_realtime p)) [
      | inr other ↦ rw (more, other) (items_from-realtime (suc r) h ps)
      | inl mine ↦ rw (more, mine, one) (ap (◌∷◌ (item_of h p)) (items_from-realtime r h ps))
    ]

map-declared :
    (h : Host) (m : Manifest) (interval : ℕ) (ps : List Proc)
    → map declared (map (item_of h) ps ++ own_item m interval ∷ [])
      ≡ map (item_of h) ps ++ own_item m interval ∷ []
unfolding item_of own_item
map-declared h m interval [] = refl
map-declared h m interval (p ∷ ps) = ap (◌∷◌ (item_of h p)) (map-declared h m interval ps)

-- The set that is placed: the first seven others, and the program itself.
pub workload-realtime :
    (h : Host) (m : Manifest) (interval : ℕ) (ps : List Proc)
    → map declared (workload h m interval ps)
      ≡ map (item_of h) (take 7 (realtime_of ps)) ++ own_item m interval ∷ []
unfolding workload
workload-realtime h m interval ps =
    ap (λ l. map declared (l ++ own_item m interval ∷ [])) (items_from-realtime 7 h ps)
    ∙ map-declared h m interval (take 7 (realtime_of ps))

-- The level of a process, and that of an item.
abbrev pub level_in : Proc → Option ℕ × Bool × ℕ
level_in p = (some p.addr, p.rt_urgent, p.rt_bound_us)

abbrev pub item_level : Item → Option ℕ × Bool × ℕ
item_level o = (o.proc, o.urgent, o.bound)

-- An item given to the process at address `a`.
abbrev given_at : ℕ → Item → Proc → Proc
given_at a it p = if p.addr == a then settled it p else p

settled-same : (it : Item) (p : Proc) → is_changed it p ≡ false → settled it p ≡ p
settled-same it p h =
    let level : it.urgent ≡ p.rt_urgent = ground arith in
    let bound : it.bound ≡ p.rt_bound_us = ground arith in
    ap₂ (λ u b. record p { rt_urgent = u; rt_bound_us = b }) level bound

given_at-others :
    (a : ℕ) (it : Item) (ps : List Proc)
    → all (λ q. not (q.addr == a)) ps ≡ true
    → map (given_at a it) ps ≡ ps
given_at-others a it [] h = refl
given_at-others a it (p ∷ ps) h = ground (arith, given_at-others a it ps)

settle_one-given_at :
    (a : ℕ) (it : Item) (ps : List Proc)
    → distinct ps ≡ true
    → (settle_one a it ps).0 ≡ map (given_at a it) ps
unfolding settle_one
settle_one-given_at a it [] d = refl
settle_one-given_at a it (p ∷ ps) d = elim (Bool-cases (p.addr == a)) [
  | inr other ↦ rw other (ap (◌∷◌ p) (settle_one-given_at a it ps (ground arith)))
  | inl here ↦
      let same : p.addr ≡ a = ground (arith, here) in
      let alone : all (λ q. not (q.addr == p.addr)) ps ≡ true = ground (arith, d) in
      let rest : map (given_at a it) ps ≡ ps =
        given_at-others a it ps (subst (λ x. all (λ q. not (q.addr == x)) ps ≡ true) same alone) in
      elim (Bool-cases (is_changed it p)) [
        | inl changed ↦ rw (here, changed, rest) refl
        | inr still ↦ rw (here, still, rest) (ap (λ x. x ∷ ps) (sym (settled-same it p still)))
      ]
]

-- All the items given to a process, up to the one without a process.
abbrev pub applied : List Item → Proc → Proc
applied [] p = p
applied (it ∷ its) p =
    let rest = applied its in elim it.proc [ none ↦ p | some a ↦ rest (given_at a it p) ]

-- What a change leaves of the process.
abbrev pub Alike : Proc → Proc → Type 0
Alike p q = (p.addr ≡ q.addr) × (is_realtime p ≡ is_realtime q)

given_at-Alike : (a : ℕ) (it : Item) (p : Proc) → Alike (given_at a it p) p
given_at-Alike a it p = elim (Bool-cases (p.addr == a)) [
  | inl here ↦ rw here (refl, refl)
  | inr other ↦ rw other (refl, refl)
]

pub applied-Alike : (its : List Item) (p : Proc) → Alike (applied its p) p
applied-Alike [] p = (refl, refl)
applied-Alike (it ∷ its) p = elim (Option-cases it.proc) [
  | inl e ↦ rw e (refl, refl)
  | inr (a, e) ↦
      let (x, y) = applied-Alike its (given_at a it p) in
      let (x', y') = given_at-Alike a it p in rw e (x ∙ x', y ∙ y')
]

all-apart-map :
    (a : ℕ) (f : Proc → Proc) (ps : List Proc)
    → ((p : Proc) → Alike (f p) p)
    → all (λ q. not (q.addr == a)) ps ≡ true
    → all (λ q. not (q.addr == a)) (map f ps) ≡ true
all-apart-map a f [] alike h = refl
all-apart-map a f (p ∷ ps) alike h = ground (arith, (alike p).0, all-apart-map a f ps alike)

distinct-map :
    (f : Proc → Proc) (ps : List Proc)
    → ((p : Proc) → Alike (f p) p)
    → distinct ps ≡ true
    → distinct (map f ps) ≡ true
distinct-map f [] alike d = refl
distinct-map f (p ∷ ps) alike d =
    let apart = all-apart-map p.addr f ps alike (ground arith) in
    rw ((alike p).0, apart) (distinct-map f ps alike (ground arith))

map-map_lem : (f g : Proc → Proc) (ps : List Proc) → map f (map g ps) ≡ map (λ p. f (g p)) ps
map-map_lem f g [] = refl
map-map_lem f g (p ∷ ps) = ap (◌∷◌ (f (g p))) (map-map_lem f g ps)

map-itself : (ps : List Proc) → map (λ p. p) ps ≡ ps
map-itself [] = refl
map-itself (p ∷ ps) = ap (◌∷◌ p) (map-itself ps)

pub settle-applied :
    (its : List Item) (ps : List Proc)
    → distinct ps ≡ true
    → (settle its ps).0 ≡ map (applied its) ps
unfolding settle settle_one
settle-applied [] ps d = sym (map-itself ps)
settle-applied (it ∷ its) ps d = elim (Option-cases it.proc) [
  | inl e ↦ rw e (sym (map-itself ps))
  | inr (a, e) ↦
      let first = settle_one-given_at a it ps d in
      let d' : distinct (settle_one a it ps).0 ≡ true =
        subst (λ l. distinct l ≡ true) (sym first)
          (distinct-map (given_at a it) ps (given_at-Alike a it) d) in
      rw e (
        settle-applied its (settle_one a it ps).0 d'
        ∙ ap (map (applied its)) first
        ∙ map-map_lem (applied its) (given_at a it) ps)
]
