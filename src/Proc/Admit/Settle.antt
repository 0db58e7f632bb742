-- ===== src/Proc/Admit/Settle.antt =====
-- proc.c: a placement that is settled on, and written back to the table.
use rv.Prelude.{
  ℕ, zero, suc, ◌≡◌, refl, ◌∙◌, inl, inr, Bool, true, false, not, ◌||◌, some, List, [], ◌∷◌, ◌++◌,
  map, arith, leb, ◌==◌, Bool-cases, Option-cases, length, get_elem?, all,
}
use rv.Rt.{Item, Placed, fits, misses, no_fuel, place_rt}
use rv.Rt.Outcome.{place_rt-meets, declared}
use rv.Proc.{Proc}
use rv.Proc.Admit.{
  Manifest, Terms, Admission, admitted, SetClass, is_changed, settle_one, settle, terms_of,
  level_of, placed_as,
}

-- Where a task has a release interval, its response bound is within its deadline.
abbrev pub meets : Item → Bool
meets o = not o.bounded || leb o.bound o.d

-- The table but for the levels and bounds of real-time work.
abbrev pub unplaced : Proc → Proc
unplaced p = record p { rt_urgent = false; rt_bound_us = 0 }

all-index :
    (f : Item → Bool) (xs : List Item)
    → ((i : ℕ) (x : Item) → get_elem? xs i ≡ some x → f x ≡ true)
    → all f xs ≡ true
all-index f [] h = refl
all-index f (x ∷ xs) h = rw (h 0 x refl, all-index f xs (λ i y e. h (suc i) y e)) refl

settle_one-unplaced :
    (a : ℕ) (it : Item) (ps : List Proc) → map unplaced (settle_one a it ps).0 ≡ map unplaced ps
unfolding settle_one
settle_one-unplaced a it [] = refl
settle_one-unplaced a it (p ∷ ps) = elim (Bool-cases (p.addr == a)) [
  | inr other ↦ ground (arith, settle_one-unplaced a it ps)
  | inl here ↦ elim (Bool-cases (is_changed it p)) [
    | inl changed ↦ rw (here, changed) refl
    | inr same ↦ rw (here, same) refl
  ]
]

pub settle-unplaced :
    (its : List Item) (ps : List Proc) → map unplaced (settle its ps).0 ≡ map unplaced ps
unfolding settle settle_one
settle-unplaced [] ps = refl
settle-unplaced (it ∷ its) ps = elim (Option-cases it.proc) [
  | inl e ↦ rw e refl
  | inr (a, e) ↦ rw e (settle-unplaced its (settle_one a it ps).0 ∙ settle_one-unplaced a it ps)
]

pub own-index : (xs : List Item) (y : Item) → get_elem? (xs ++ y ∷ []) (length xs) ≡ some y
own-index [] y = refl
own-index (x ∷ xs) y = own-index xs y

pub declared-index :
    (xs ys : List Item) (i : ℕ) (y : Item)
    → map declared xs ≡ map declared ys
    → get_elem? ys i ≡ some y
    → (x : Item) × (get_elem? xs i ≡ some x) × (declared x ≡ declared y)
declared-index xs [] i y e h = absurd (cc)
declared-index [] (z ∷ ys) i y e h = absurd (cc)
declared-index (x ∷ xs) (z ∷ ys) zero y e h = (x, refl, cc)
declared-index (x ∷ xs) (z ∷ ys) (suc i) y e h =
    let rest : map declared xs ≡ map declared ys = cc in declared-index xs ys i y rest h

pub place_rt-all_meet : (items out : List Item) → place_rt items ≡ fits out → all meets out ≡ true
place_rt-all_meet items out h = all-index meets out one
  where
    one : (i : ℕ) (x : Item) → get_elem? out i ≡ some x → meets x ≡ true
    one i x at = elim (Bool-cases x.bounded) [
      | inr free ↦ ground arith
      | inl timed ↦ ground (arith, place_rt-meets items out i x h at timed)
    ]

-- A placement that was settled, as admission reports it.
pub record Settlement (m : Manifest) (n : ℕ) (p : Placed) (ps : List Proc) (a : Admission)
    : Type 0 where
  pub out : List Item
  pub result : p ≡ fits out
  pub answer :
      a
      ≡ admitted
          (terms_of m (level_of (get_elem? out n)).0 (level_of (get_elem? out n)).1)
          (settle out ps).0
          (settle out ps).1

pub placed_as-Settlement :
    (m : Manifest) (n : ℕ) (p : Placed) (ps qs : List Proc) (terms : Terms) (calls : List SetClass)
    → placed_as m n p ps ≡ admitted terms qs calls
    → Settlement m n p ps (placed_as m n p ps)
unfolding placed_as
placed_as-Settlement m n (fits out) ps qs terms calls h = record {
  out = out;
  result = refl;
  answer = refl;
}
placed_as-Settlement m n (misses bad out) ps qs terms calls h = absurd (cc)
placed_as-Settlement m n no_fuel ps qs terms calls h = absurd (cc)
