-- ===== src/Rt/Outcome.antt =====
-- proc.c: the placement that `place_rt` settles on.
use rv.Rt.Meets.{level_from-meets}
use rv.Prelude.{
  ℕ, zero, suc, ◌+◌, ◌≤◌, ◌≡◌, refl, sym, ap, ap₂, ◌∙◌, inl, inr, Bool, true, false, not, beq, ◌&&◌,
  none, some, List, [], ◌∷◌, map, arith, leb, ◌==◌, if◌then◌else◌, Bool-cases, Option-cases, length,
  get_elem?, all,
}
use rv.Rt.{
  Item, fits, derived, pinned_routine, response_bound, level_meets, pick_from, demote, change,
  place_rest, place_loop, start_level, place_rt,
}
use rv.Rt.Level.{strip, response_bound_same, level_from-other}
use rv.Rt.Place.{is_movable, pick-movable, level_meets-strip}

-- Both levels meet their deadlines.
record Settled (items out : List Item) : Type 0 where
  urgent_met : (level_meets items true).1 ≡ none
  routine_met : (level_meets (level_meets items true).0 false).1 ≡ none
  result : (level_meets (level_meets items true).0 false).0 ≡ out

all-strip :
    (p : Item → Bool)
    → ((o : Item) → p (strip o) ≡ p o)
    → (xs ys : List Item) → map strip xs ≡ map strip ys
    → all p xs ≡ all p ys
all-strip p blind [] [] e = refl
all-strip p blind [] (y ∷ ys) e = absurd (cc)
all-strip p blind (x ∷ xs) [] e = absurd (cc)
all-strip p blind (x ∷ xs) (y ∷ ys) e =
    let same : strip x ≡ strip y = cc in
    let here : p x ≡ p y = sym (blind x) ∙ (ap p same ∙ blind y) in
    let rest : map strip xs ≡ map strip ys = cc in rw (here, all-strip p blind xs ys rest) refl

all-change :
    (p : Item → Bool)
    → ((o : Item) → is_movable o ≡ true → p o ≡ true → p (demote o) ≡ true)
    → (v : ℕ) (o : Item) (items : List Item) → get_elem? items v ≡ some o
    → is_movable o ≡ true
    → all p items ≡ true
    → all p (change v demote items) ≡ true
unfolding change
all-change p keep v o [] at m k = absurd (cc)
all-change p keep zero o (x ∷ xs) at m k = ground (arith, keep o m)
all-change p keep (suc v) o (x ∷ xs) at m k = ground (arith, all-change p keep v o xs at m)

place_rest-fits :
    (items out : List Item)
    → place_rest items ≡ fits out
    → ((level_meets items false).1 ≡ none) × ((level_meets items false).0 ≡ out)
unfolding place_rest
place_rest-fits items out h = ground arith

Settled-strip : (items out : List Item) → Settled items out → map strip out ≡ map strip items
Settled-strip items out s =
    ap (map strip) (sym s.result)
    ∙ (level_meets-strip (level_meets items true).0 false ∙ level_meets-strip items true)

level_meets-meets :
    (items : List Item) (u : Bool) (j : ℕ) (o : Item)
    → (level_meets items u).1 ≡ none
    → get_elem? (level_meets items u).0 j ≡ some o
    → (o.bounded && beq o.urgent u) ≡ true
    → (o.bound ≡ response_bound items j o) × (o.bound ≤ o.d)
unfolding level_meets
level_meets-meets items u j o =
    level_from-meets (length items) 0 j u items o (omega arith) (omega arith)

level_meets-other :
    (items : List Item) (u : Bool) (j : ℕ) (o : Item)
    → get_elem? (level_meets items u).0 j ≡ some o
    → beq o.urgent u ≡ false
    → get_elem? items j ≡ some o
unfolding level_meets
level_meets-other items u j o = level_from-other (length items) 0 j u items o

Settled-met :
    (items out : List Item) (j : ℕ) (o : Item)
    → Settled items out
    → get_elem? out j ≡ some o
    → o.bounded ≡ true
    → (o.bound ≡ response_bound out j o) × (o.bound ≤ o.d)
Settled-met items out j o s h b =
    let items' = (level_meets items true).0 in
    let at : get_elem? (level_meets items' false).0 j ≡ some o = rw s.result h in
    elim (Bool-cases o.urgent) [
      | inr routine ↦
          let (e, le) = level_meets-meets items' false j o s.routine_met at (ground arith) in
          let same : map strip items' ≡ map strip out =
            level_meets-strip items true ∙ sym (Settled-strip items out s) in
          (e ∙ response_bound_same items' out j o o same refl, le)
      | inl urgent ↦
          let before = level_meets-other items' false j o at (ground arith) in
          let (e, le) = level_meets-meets items true j o s.urgent_met before (ground arith) in
          (e ∙ response_bound_same items out j o o (sym (Settled-strip items out s)) refl, le)
    ]

-- Where the loop ends with every deadline met, it got there from tasks that hold `Q`, for any `Q`
-- that neither a new bound nor the move of a movable task breaks.
module _ (Q : List Item → Type 0)
    (rebound : (xs ys : List Item) → map strip xs ≡ map strip ys → Q ys → Q xs)
    (moved : (v : ℕ) (o : Item) (items : List Item)
      → get_elem? items v ≡ some o
      → is_movable o ≡ true
      → Q items
      → Q (change v demote items)) where
  place_loop-Settled :
      (f : ℕ) (items out : List Item)
      → place_loop f items ≡ fits out
      → Q items
      → (last : List Item) × Settled last out × Q last
  unfolding place_loop
  place_loop-Settled zero items out h k = absurd (cc)
  place_loop-Settled (suc f) items out h k =
      let items' = (level_meets items true).0 in
      let choice = pick_from 0 (none, 0) items' in
      elim (Option-cases (level_meets items true).1) [
        | inl e ↦
            let (a, b) = place_rest-fits items' out (rw (e, place_loop) at h) in
            (items, record { urgent_met = e; routine_met = a; result = b }, k)
        | inr (bad, e) ↦ elim (Option-cases choice.0) [
          | inl n ↦ absurd (ground arith)
          | inr ((victim, d), n) ↦ elim (Bool-cases (leb choice.1 1)) [
            | inl alone ↦ absurd (ground arith)
            | inr others ↦
                let (o, at, m) = pick-movable victim d items' n in
                place_loop-Settled f (change victim demote items') out (ground arith) (
                  moved victim o items' at m
                    (rebound items' items (level_meets-strip items true) k))
          ]
        ]
      ]

  place_rt-Settled :
      (items out : List Item)
      → place_rt items ≡ fits out
      → Q (map start_level items)
      → ((last : List Item) × Settled last out) × Q out
  unfolding place_rt
  place_rt-Settled items out h k =
      let (last, s, q) = place_loop-Settled (length items + 1) (map start_level items) out h k in
      ((last, s), rebound out last (Settled-strip last out s) q)

-- A placement that `place_rt` accepts gives each bounded task, urgent or routine, the response bound
-- of the analysis among all the tasks as they are placed in the end, and that bound is within its
-- deadline.
pub place_rt-meets :
    (items out : List Item) (j : ℕ) (o : Item)
    → place_rt items ≡ fits out
    → get_elem? out j ≡ some o
    → o.bounded ≡ true
    → (o.bound ≡ response_bound out j o) × (o.bound ≤ o.d)
place_rt-meets items out j o h at b =
    let ((last, s), q) =
      place_rt-Settled (λ l. Unit {0}) (λ xs ys e q. tt) (λ v x l e m q. tt) items out h tt in
    Settled-met last out j o s at b

-- What a declared placement, or the absence of a release interval, fixes: a task pinned to routine
-- is routine, and one pinned to urgent, or that cannot be analysed, is urgent.
abbrev pub keeps_pin : Item → Bool
keeps_pin o =
    if o.pin == pinned_routine
    then not o.urgent
    else if o.pin == derived && o.bounded
    then true
    else o.urgent

-- All of a task but its level and its bound.
abbrev pub declared : Item → Item
declared o = record o { urgent = false; bound = 0 }

start-keeps_pin : (items : List Item) → all keeps_pin (map start_level items) ≡ true
start-keeps_pin [] = refl
start-keeps_pin (o ∷ os) = ground (arith, start-keeps_pin os)

start-declared : (items : List Item) → map declared (map start_level items) ≡ map declared items
start-declared [] = refl
start-declared (o ∷ os) = ap (◌∷◌ (declared o)) (start-declared os)

declared-strip :
    (xs ys : List Item) → map strip xs ≡ map strip ys → map declared xs ≡ map declared ys
declared-strip [] [] e = refl
declared-strip [] (y ∷ ys) e = absurd (cc)
declared-strip (x ∷ xs) [] e = absurd (cc)
declared-strip (x ∷ xs) (y ∷ ys) e =
    let same : strip x ≡ strip y = cc in
    let rest : map strip xs ≡ map strip ys = cc in
    ap₂ ◌∷◌ (ap declared same) (declared-strip xs ys rest)

declared-change :
    (v : ℕ) (items : List Item) → map declared (change v demote items) ≡ map declared items
unfolding change
declared-change v [] = refl
declared-change zero (x ∷ xs) = refl
declared-change (suc v) (x ∷ xs) = ap (◌∷◌ (declared x)) (declared-change v xs)

-- A placement that `place_rt` accepts is of the same tasks in the same order, with the intervals,
-- costs, deadlines and pins that they came with, and it keeps every pin.
pub place_rt-keeps :
    (items out : List Item)
    → place_rt items ≡ fits out
    → (map declared out ≡ map declared items) × (all keeps_pin out ≡ true)
place_rt-keeps items out h = (same, pins)
  where
    same : map declared out ≡ map declared items
    same =
        (place_rt-Settled (λ l. map declared l ≡ map declared items)
          (λ xs ys e q. declared-strip xs ys e ∙ q) (λ v x l e m q. declared-change v l ∙ q) items
          out h (start-declared items)).1

    pins : all keeps_pin out ≡ true
    pins =
        (place_rt-Settled (λ l. all keeps_pin l ≡ true)
          (λ xs ys e q. all-strip keeps_pin (λ o. refl) xs ys e ∙ q)
          (λ v x l e m q. all-change keeps_pin (λ o m' k. ground arith) v x l e m q) items out h
          (start-keeps_pin items)).1
