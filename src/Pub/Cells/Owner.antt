-- ===== src/Pub/Cells/Owner.antt =====
-- pfm.c: the writers of a cell over a history of its device.
use rv.Prelude.{
  ℕ, ◌+◌, ◌≤◌, ◌≡◌, refl, subst, ◌∙◌, inl, inr, Bool, true, false, ◌&&◌, ◌||◌, Option, none, some,
  List, [], ◌∷◌, ◌++◌, arith, ◌==◌, if◌then◌else◌, Bool-cases, Option-cases, length, get_elem?,
}
use rv.Pub.Cells.{
  Entry, PubPath, Status, on_cell, name_ok, cell_for, is_foreign, taken_by, one_reader, admit,
  admitted_at, open_device, pfm_open, given_up, pfm_close, pfm_reserve_writer, pfm_remove,
  pfm_ended,
}
use rv.Pub.Cells.Held.{
  writes, writers, held_of, held_at, on_cell-held, on_cell-set, on_cell-other, find_or_make-held,
  reserve-held, remove-held, ended-held,
}

-- The open paths after an open.
abbrev pub opened : Option PubPath → List PubPath → List PubPath
opened none sts = sts
opened (some st) sts = st ∷ sts

-- The cells and the paths that are open, from cells that nobody holds. A path that is closed is one
-- that is open.
pub data Reach : List Entry → List PubPath → Type 0 where
  start : (cs : List Entry) → ((i : ℕ) → held_at i cs ≡ 0) → Reach cs []
  open_path :
      (memory reading writing : Bool) (name : List ℕ) (me : ℕ) (cs : List Entry)
      (sts : List PubPath)
      → Reach cs sts
      → Reach
          (pfm_open memory name reading writing me cs).2
          (opened (pfm_open memory name reading writing me cs).1 sts)
  close_path :
      (before after : List PubPath) (st : PubPath) (cs : List Entry)
      → Reach cs (before ++ st ∷ after)
      → Reach (pfm_close st cs) (before ++ after)
  declare :
      (name : List ℕ) (pid : ℕ) (meaning : List ℕ) (cs : List Entry) (sts : List PubPath)
      → Reach cs sts
      → Reach (pfm_reserve_writer name pid meaning cs).1 sts
  remove :
      (name : List ℕ) (cs : List Entry) (sts : List PubPath)
      → Reach cs sts
      → Reach (pfm_remove name cs).1 sts
  end :
      (pid fault : ℕ) (cs : List Entry) (sts : List PubPath)
      → Reach cs sts
      → Reach (pfm_ended pid fault cs) sts

-- Each cell is held just when one open path writes it.
abbrev pub Matches : List Entry → List PubPath → Type 0
Matches cs sts = (i : ℕ) → held_at i cs ≡ writers i sts

-- A path that writes a cell that nobody held.
granted_lem :
    (i : ℕ) (f : Entry → Entry) (c : Entry) (st : PubPath) (cs : List Entry) (sts : List PubPath)
    → get_elem? cs i ≡ some c
    → c.held ≡ false
    → (f c).held ≡ true
    → st.cell ≡ some i
    → st.is_writer ≡ true
    → Matches cs sts
    → Matches (on_cell i f cs) (st ∷ sts)
granted_lem i f c st cs sts at free now cell w m j = elim (Bool-cases (i == j)) [
  | inl same ↦ ground (arith, on_cell-set i f c cs at, m i, at, free, now, cell, w)
  | inr other ↦ ground (arith, on_cell-other i j f cs other, m j, cell, w)
]

admit-Matches :
    (i : ℕ) (reading writing : Bool) (me : ℕ) (cs : List Entry) (sts : List PubPath)
    → Matches cs sts
    → Matches (admit i reading writing me cs).2 (opened (admit i reading writing me cs).1 sts)
unfolding admit
admit-Matches i reading writing me cs sts m = elim (Option-cases (get_elem? cs i)) [
  | inl out ↦ rw (out, admit) m
  | inr (c, at) ↦ elim (Bool-cases (writing && (is_foreign me c || c.held))) [
    | inl refused ↦ rw (at, refused, admit) m
    | inr granted ↦
        rw (at, granted, admit)
          (elim (Bool-cases writing) [
            | inl w ↦
                granted_lem i (λ e. one_reader reading (if writing then taken_by me e else e)) c
                  (record { cell = some i; is_writer = writing; reading = reading }) cs sts at
                  (ground (arith, granted, w)) (ground (arith, w)) refl w m
            | inr r ↦ λ j.
                on_cell-held i j (λ e. one_reader reading (if writing then taken_by me e else e)) cs
                  (λ d h. ground (arith, r))
                ∙ ground (arith, m j, r)
          ])
  ]
]

admitted_at-Matches :
    (reading writing : Bool) (me : ℕ) (r : Status × Option ℕ × List Entry) (sts : List PubPath)
    → Matches r.2 sts
    → Matches (admitted_at reading writing me r).2 (opened (admitted_at reading writing me r).1 sts)
admitted_at-Matches reading writing me (failure, none, cs) sts m = m
admitted_at-Matches reading writing me (failure, some i, cs) sts m =
    admit-Matches i reading writing me cs sts m

cell_for-held :
    (writing : Bool) (name : List ℕ) (i : ℕ) (cs : List Entry)
    → held_at i (cell_for writing name cs).2 ≡ held_at i cs
unfolding cell_for
cell_for-held true name i cs = find_or_make-held name i cs
cell_for-held false name i cs = refl

open_device-Matches :
    (reading writing : Bool) (cs : List Entry) (sts : List PubPath)
    → Matches cs sts
    → Matches (open_device reading writing cs).2 (opened (open_device reading writing cs).1 sts)
unfolding open_device
open_device-Matches reading true cs sts m = m
open_device-Matches reading false cs sts m = λ i. omega (arith, m i)

open-Matches :
    (memory reading writing : Bool) (name : List ℕ) (me : ℕ) (cs : List Entry) (sts : List PubPath)
    → Matches cs sts
    → Matches
        (pfm_open memory name reading writing me cs).2
        (opened (pfm_open memory name reading writing me cs).1 sts)
unfolding pfm_open
open-Matches false reading writing name me cs sts m = m
open-Matches true reading writing name me cs sts m = elim (Bool-cases (length name == 0)) [
  | inl device ↦ rw device (open_device-Matches reading writing cs sts m)
  | inr cell ↦ elim (Bool-cases (name_ok name)) [
    | inl good ↦
        rw (cell, good)
          (admitted_at-Matches reading writing me (cell_for writing name cs) sts
            (λ i. cell_for-held writing name i cs ∙ m i))
    | inr bad ↦ rw (cell, bad) m
  ]
]

writers-middle :
    (i : ℕ) (before after : List PubPath) (st : PubPath)
    → writers i (before ++ st ∷ after) ≡ writes i st + writers i (before ++ after)
writers-middle i [] after st = refl
writers-middle i (x ∷ xs) after st = omega (arith, writers-middle i xs after st)

close-Matches :
    (before after : List PubPath) (st : PubPath) (cs : List Entry)
    → Matches cs (before ++ st ∷ after)
    → Matches (pfm_close st cs) (before ++ after)
unfolding pfm_close
close-Matches before after st cs m = elim (Option-cases st.cell) [
  | inl none_there ↦
      rw (none_there, pfm_close)
        (λ i. m i ∙ ground (arith, writers-middle i before after st, none_there))
  | inr (j, e) ↦
      rw (e, pfm_close)
        (λ i. elim (Bool-cases st.is_writer) [
          | inr reader ↦
              on_cell-held j i (given_up st) cs (λ c h. ground (arith, reader))
              ∙ m i
              ∙ ground (arith, writers-middle i before after st, reader)
          | inl w ↦ elim (Bool-cases (j == i)) [
            | inr other ↦ ground (
              arith,
              on_cell-other j i (given_up st) cs other,
              m i,
              writers-middle i before after st,
              e,
              w,
            )
            | inl same ↦ elim (Option-cases (get_elem? cs j)) [
              | inl out ↦ absurd (ground (arith, m j, writers-middle j before after st, e, w, out))
              | inr (c, at) ↦ ground (
                arith,
                on_cell-set j (given_up st) c cs at,
                m j,
                at,
                writers-middle j before after st,
                e,
                w,
              )
            ]
          ]
        ])
]

pub Reach-Matches : (cs : List Entry) (sts : List PubPath) → Reach cs sts → Matches cs sts
unfolding pfm_ended
Reach-Matches _ _ (start cs free) = free
Reach-Matches _ _ (open_path memory reading writing name me cs sts r) =
    open-Matches memory reading writing name me cs sts (Reach-Matches cs sts r)
Reach-Matches _ _ (close_path before after st cs r) =
    close-Matches before after st cs (Reach-Matches cs (before ++ st ∷ after) r)
Reach-Matches _ _ (declare name pid meaning cs sts r) =
    λ i. reserve-held name pid meaning i cs ∙ Reach-Matches cs sts r i
Reach-Matches _ _ (remove name cs sts r) = λ i. remove-held name i cs ∙ Reach-Matches cs sts r i
Reach-Matches _ _ (end pid fault cs sts r) = elim (Bool-cases (pid == 0)) [
  | inl nobody ↦ rw nobody (Reach-Matches cs sts r)
  | inr one ↦ rw one (λ i. ended-held pid fault i cs ∙ Reach-Matches cs sts r i)
]

-- However paths are opened and closed, cells declared and removed and processes end, from cells that
-- nobody holds, no two open paths write one cell, and a cell is held just while one does.
pub Reach-one_writer :
    (cs : List Entry) (sts : List PubPath) (i : ℕ)
    → Reach cs sts
    → (writers i sts ≤ 1) × (held_at i cs ≡ writers i sts)
Reach-one_writer cs sts i r =
    let m = Reach-Matches cs sts r i in (subst (λ n. n ≤ 1) m (held_small (get_elem? cs i)), m)
  where
    held_small : (o : Option Entry) → held_of o ≤ 1
    held_small none = ground arith
    held_small (some c) = ground arith
