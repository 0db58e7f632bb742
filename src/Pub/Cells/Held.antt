-- ===== src/Pub/Cells/Held.antt =====
-- pfm.c: which operations change who holds a cell.
use rv.Prelude.{
  ℕ, zero, suc, ◌+◌, ◌≡◌, refl, ap, ◌∙◌, inl, inr, Bool, false, not, ◌&&◌, ◌||◌, Option, none, some,
  List, [], ◌∷◌, map, arith, ltb, ◌==◌, if◌then◌else◌, Bool-cases, Option-cases, get_elem?,
}
use rv.Pub.Cells.{
  Entry, PubPath, on_cell, find_cell, free_cell, named, make_cell, name_ok, find_or_make,
  other_owner, declared_by, declare_at, pfm_reserve_writer, empty_entry, pfm_remove, ended_one,
}

abbrev pub is_on_cell : Option ℕ → ℕ → Bool
is_on_cell none i = false
is_on_cell (some j) i = j == i

-- How many of the open paths write the cell in place `i`.
abbrev pub writes : ℕ → PubPath → ℕ
writes i st = if st.is_writer && is_on_cell st.cell i then 1 else 0

abbrev pub writers : ℕ → List PubPath → ℕ
writers i [] = 0
writers i (st ∷ sts) = writes i st + writers i sts

-- Whether the cell in place `i` is held, as a number.
abbrev pub held_of : Option Entry → ℕ
held_of none = 0
held_of (some c) = if c.held then 1 else 0

abbrev pub held_at : ℕ → List Entry → ℕ
held_at i cs = held_of (get_elem? cs i)

-- A write to one cell that leaves `held`, or sets it.
pub on_cell-held :
    (i j : ℕ) (f : Entry → Entry) (cs : List Entry)
    → ((c : Entry) → get_elem? cs i ≡ some c → (f c).held ≡ c.held)
    → held_at j (on_cell i f cs) ≡ held_at j cs
unfolding on_cell
on_cell-held i j f [] h = refl
on_cell-held zero zero f (c ∷ cs) h = ap (λ b. if b then 1 else 0) (h c refl)
on_cell-held zero (suc j) f (c ∷ cs) h = refl
on_cell-held (suc i) zero f (c ∷ cs) h = refl
on_cell-held (suc i) (suc j) f (c ∷ cs) h = on_cell-held i j f cs h

pub on_cell-set :
    (i : ℕ) (f : Entry → Entry) (c : Entry) (cs : List Entry)
    → get_elem? cs i ≡ some c
    → get_elem? (on_cell i f cs) i ≡ some (f c)
unfolding on_cell
on_cell-set i f c [] h = absurd (cc)
on_cell-set zero f c (d ∷ cs) h = ground arith
on_cell-set (suc i) f c (d ∷ cs) h = on_cell-set i f c cs h

pub on_cell-other :
    (i j : ℕ) (f : Entry → Entry) (cs : List Entry)
    → (i == j) ≡ false
    → get_elem? (on_cell i f cs) j ≡ get_elem? cs j
unfolding on_cell
on_cell-other i j f [] h = refl
on_cell-other zero zero f (c ∷ cs) h = absurd (cc)
on_cell-other zero (suc j) f (c ∷ cs) h = refl
on_cell-other (suc i) zero f (c ∷ cs) h = refl
on_cell-other (suc i) (suc j) f (c ∷ cs) h = on_cell-other i j f cs (ground arith)

make_cell-held :
    (name : List ℕ) (i : ℕ) (cs : List Entry) → held_at i (make_cell name cs).1 ≡ held_at i cs
unfolding make_cell
make_cell-held name i cs = elim (Option-cases (free_cell 0 cs)) [
  | inl full ↦ rw (full, make_cell) refl
  | inr (j, e) ↦ rw (e, make_cell) (on_cell-held j i (named name) cs (λ c h. refl))
]

pub find_or_make-held :
    (name : List ℕ) (i : ℕ) (cs : List Entry) → held_at i (find_or_make name cs).1 ≡ held_at i cs
unfolding find_or_make
find_or_make-held name i cs = elim (Option-cases (find_cell name 0 cs)) [
  | inl new ↦ rw (new, find_or_make) (make_cell-held name i cs)
  | inr (j, e) ↦ rw (e, find_or_make) refl
]

declare_at-held :
    (pid : ℕ) (meaning : List ℕ) (o : Option ℕ) (i : ℕ) (cs : List Entry)
    → held_at i (declare_at pid meaning (o, cs)).1 ≡ held_at i cs
unfolding declare_at
declare_at-held pid meaning none i cs = refl
declare_at-held pid meaning (some j) i cs = elim (Option-cases (get_elem? cs j)) [
  | inl out ↦ rw (out, declare_at) refl
  | inr (c, e) ↦ elim (Bool-cases (other_owner pid c == 0)) [
    | inl free ↦
        rw (e, free, declare_at) (on_cell-held j i (declared_by pid meaning) cs (λ d h. refl))
    | inr other ↦ rw (e, other, declare_at) refl
  ]
]

pub reserve-held :
    (name : List ℕ) (pid : ℕ) (meaning : List ℕ) (i : ℕ) (cs : List Entry)
    → held_at i (pfm_reserve_writer name pid meaning cs).1 ≡ held_at i cs
unfolding pfm_reserve_writer
reserve-held name pid meaning i cs = elim (Bool-cases (name_ok name)) [
  | inl good ↦ rw good (
      declare_at-held pid meaning (find_or_make name cs).0 i (find_or_make name cs).1
      ∙ find_or_make-held name i cs)
  | inr bad ↦ rw bad refl
]

pub remove-held :
    (name : List ℕ) (i : ℕ) (cs : List Entry) → held_at i (pfm_remove name cs).1 ≡ held_at i cs
unfolding pfm_remove
remove-held name i cs = elim (Option-cases (find_cell name 0 cs)) [
  | inl missing ↦ rw (missing, pfm_remove) refl
  | inr (j, found) ↦ elim (Option-cases (get_elem? cs j)) [
    | inl out ↦ rw (found, out, pfm_remove) refl
    | inr (c, e) ↦ elim (Bool-cases (c.held || ltb 0 c.readers || not (c.reserved_by == 0))) [
      | inl used ↦ rw (found, e, used, pfm_remove) refl
      | inr free ↦
          rw (found, e, free, pfm_remove)
            (on_cell-held j i (λ d. empty_entry) cs (λ d h. ground (arith, free, e, h)))
    ]
  ]
]

pub ended-held :
    (pid fault i : ℕ) (cs : List Entry) → held_at i (map (ended_one pid fault) cs) ≡ held_at i cs
unfolding ended_one
ended-held pid fault i [] = refl
ended-held pid fault zero (c ∷ cs) = ground arith
ended-held pid fault (suc i) (c ∷ cs) = ended-held pid fault i cs
