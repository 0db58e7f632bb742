-- ===== src/Rt/Level.antt =====
-- proc.c: `level_meets` gives each bounded task of a level its response bound.
use rv.Prelude.{
  ℕ, zero, suc, ◌+◌, ◌≤◌, ◌<◌, ◌≡◌, refl, sym, ap, ap₂, ◌∙◌, ◌≢◌, inl, inr, Bool, true, false, beq,
  ◌&&◌, none, some, List, [], ◌∷◌, map, arith, ltb, Bool-cases, Option-cases, length, get_elem?,
  set,
}
use rv.Rt.{Item, demand_of, add_demands, bound_loop, clamp, response_bound, level_from}

-- A task without the bound that was found for it.
abbrev pub strip : Item → Item
strip o = record o { bound = 0 }

add_demands-strip :
    (me : Item) (i r j next : ℕ) (os : List Item)
    → add_demands (strip me) i r j next (map strip os) ≡ add_demands me i r j next os
unfolding add_demands demand_of
add_demands-strip me i r j next [] = refl
add_demands-strip me i r j next (o ∷ os) = add_demands-strip me i r (j + 1) _ os

bound_loop-strip :
    (k : ℕ) (me : Item) (i : ℕ) (items : List Item) (r : ℕ)
    → bound_loop k (strip me) i (map strip items) r ≡ bound_loop k me i items r
unfolding bound_loop
bound_loop-strip zero me i items r = refl
bound_loop-strip (suc k) me i items r =
    rw
      (
        add_demands-strip me i r 0 me.c items,
        bound_loop-strip k me i items (add_demands me i r 0 me.c items),
      )
      refl

-- The bounds already found do not enter into a bound.
pub response_bound-strip :
    (items : List Item) (i : ℕ) (me : Item)
    → response_bound (map strip items) i (strip me) ≡ response_bound items i me
unfolding response_bound
response_bound-strip items i me = ap clamp (bound_loop-strip 64 me i items me.c)

pub response_bound_same :
    (items items' : List Item) (i : ℕ) (me me' : Item)
    → map strip items ≡ map strip items'
    → strip me ≡ strip me'
    → response_bound items i me ≡ response_bound items' i me'
response_bound_same items items' i me me' e m =
    sym (response_bound-strip items i me)
    ∙ (ap₂ (λ l o. response_bound l i o) e m ∙ response_bound-strip items' i me')

pub strip-set :
    (items : List Item) (i b : ℕ) (me : Item)
    → get_elem? items i ≡ some me
    → map strip (set items i (record me { bound = b })) ≡ map strip items
strip-set [] i b me h = refl
strip-set (o ∷ os) zero b me h = let e : me ≡ o = cc in ap (λ x. strip x ∷ map strip os) e
strip-set (o ∷ os) (suc i) b me h = ap (◌∷◌ (strip o)) (strip-set os i b me h)

abbrev pub with_bound : List Item → ℕ → Item → Item
with_bound items i me = record me { bound = response_bound items i me }

-- The four ways that the loop goes on from a task.
pub data Visit (k i : ℕ) (u : Bool) (items : List Item) : Type 0 where
  past : get_elem? items i ≡ none → level_from (suc k) i u items ≡ (items, none) → Visit k i u items
  skips :
      (me : Item)
      → get_elem? items i ≡ some me
      → (me.bounded && beq me.urgent u) ≡ false
      → level_from (suc k) i u items ≡ level_from k (i + 1) u items
      → Visit k i u items
  late :
      (me : Item)
      → get_elem? items i ≡ some me
      → (me.bounded && beq me.urgent u) ≡ true
      → me.d < response_bound items i me
      → level_from (suc k) i u items ≡ (set items i (with_bound items i me), some i)
      → Visit k i u items
  timely :
      (me : Item)
      → get_elem? items i ≡ some me
      → (me.bounded && beq me.urgent u) ≡ true
      → response_bound items i me ≤ me.d
      → level_from (suc k) i u items ≡ level_from k (i + 1) u (set items i (with_bound items i me))
      → Visit k i u items

pub visits : (k i : ℕ) (u : Bool) (items : List Item) → Visit k i u items
unfolding level_from
visits k i u items = elim (Option-cases (get_elem? items i)) [
  | inl e ↦ past e (rw (e, level_from) refl)
  | inr (me, e) ↦ elim (Bool-cases (me.bounded && beq me.urgent u)) [
    | inr other ↦ skips me e other (rw (e, level_from) (ground arith))
    | inl level ↦ elim (Bool-cases (ltb me.d (response_bound items i me))) [
      | inl l ↦ late me e level (ground arith) (rw (e, level_from) (ground arith))
      | inr l ↦ timely me e level (ground arith) (rw (e, level_from) (ground arith))
    ]
  ]
]

-- Only bounds change.
pub level_from-strip :
    (k i : ℕ) (u : Bool) (items : List Item)
    → map strip (level_from k i u items).0 ≡ map strip items
unfolding level_from
level_from-strip zero i u items = refl
level_from-strip (suc k) i u items = elim (visits k i u items) [
  | past e h ↦ rw h refl
  | skips me e n h ↦ rw h (level_from-strip k (i + 1) u items)
  | late me e n l h ↦ rw h (strip-set items i (response_bound items i me) me e)
  | timely me e n l h ↦ rw h (
      level_from-strip k (i + 1) u (set items i (with_bound items i me))
      ∙ strip-set items i (response_bound items i me) me e)
]

pub get_elem?-set_ne :
    (items : List Item) (i j : ℕ) (v : Item)
    → i ≢ j
    → get_elem? (set items i v) j ≡ get_elem? items j
get_elem?-set_ne [] i j v h = refl
get_elem?-set_ne (o ∷ os) zero zero v h = absurd (h refl)
get_elem?-set_ne (o ∷ os) zero (suc j) v h = refl
get_elem?-set_ne (o ∷ os) (suc i) zero v h = refl
get_elem?-set_ne (o ∷ os) (suc i) (suc j) v h = get_elem?-set_ne os i j v (λ e. h (ap suc e))

pub get_elem?-set_self :
    (items : List Item) (i : ℕ) (v o : Item)
    → get_elem? items i ≡ some o
    → get_elem? (set items i v) i ≡ some v
get_elem?-set_self [] i v o h = absurd (cc)
get_elem?-set_self (x ∷ os) zero v o h = refl
get_elem?-set_self (x ∷ os) (suc i) v o h = get_elem?-set_self os i v o h

-- What lies before the place where the loop starts stays.
pub level_from-before :
    (k i j : ℕ) (u : Bool) (items : List Item)
    → j < i
    → get_elem? (level_from k i u items).0 j ≡ get_elem? items j
unfolding level_from
level_from-before zero i j u items h = refl
level_from-before (suc k) i j u items h = elim (visits k i u items) [
  | past e g ↦ rw g refl
  | skips me e n g ↦ rw g (level_from-before k (i + 1) j u items (omega arith))
  | late me e n l g ↦ rw g (get_elem?-set_ne items i j (with_bound items i me) (omega arith))
  | timely me e n l g ↦ rw g (
      level_from-before k (i + 1) j u (set items i (with_bound items i me)) (omega arith)
      ∙ get_elem?-set_ne items i j (with_bound items i me) (omega arith))
]

pub beyond :
    (items : List Item) (j : ℕ) (o : Item) → length items ≤ j → get_elem? items j ≡ some o → ⊥
beyond [] j o le h = cc
beyond (x ∷ os) zero o le h = omega arith
beyond (x ∷ os) (suc j) o le h = beyond os j o (omega arith) h

set-other :
    (items : List Item) (i j : ℕ) (u : Bool) (me v o : Item)
    → get_elem? items i ≡ some me
    → beq v.urgent u ≡ true
    → get_elem? (set items i v) j ≡ some o
    → beq o.urgent u ≡ false
    → get_elem? items j ≡ some o
set-other [] i j u me v o e m h n = h
set-other (x ∷ os) zero zero u me v o e m h n = absurd (ground arith)
set-other (x ∷ os) zero (suc j) u me v o e m h n = h
set-other (x ∷ os) (suc i) zero u me v o e m h n = h
set-other (x ∷ os) (suc i) (suc j) u me v o e m h n = set-other os i j u me v o e m h n

-- A task of the other level is not touched.
pub level_from-other :
    (k i j : ℕ) (u : Bool) (items : List Item) (o : Item)
    → get_elem? (level_from k i u items).0 j ≡ some o
    → beq o.urgent u ≡ false
    → get_elem? items j ≡ some o
unfolding level_from
level_from-other zero i j u items o h n = h
level_from-other (suc k) i j u items o h n = elim (visits k i u items) [
  | past e g ↦ rw g at h
  | skips me e m g ↦ level_from-other k (i + 1) j u items o (rw g at h) n
  | late me e m l g ↦
      set-other items i j u me (with_bound items i me) o e (ground arith) (rw g at h) n
  | timely me e m l g ↦
      set-other items i j u me (with_bound items i me) o e (ground arith)
        (level_from-other k (i + 1) j u (set items i (with_bound items i me)) o (rw g at h) n) n
]
