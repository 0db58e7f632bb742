-- ===== src/Pipe/Open/Named.antt =====
-- pipefm.c: a name leads every open to the same pipe.
use rv.Prelude.{
  ℕ, zero, suc, ◌-◌, ◌<◌, ◌≡◌, refl, sym, ap, subst, ◌∙◌, inl, inr, Bool, Option, none, some, List,
  [], ◌∷◌, arith, ltb, str_eq, str_eq_iff, Bool-cases, Option-cases, length, take, take_all, mem,
}
use rv.Pipe.{Pipe, PipePath, name_max}
use rv.Pipe.Open.{
  find, free_slot, update, made, find_or_make, wants_read, wants_write, attach, opened, pipe_open,
}

find-update :
    (name : List ℕ) (i : ℕ) (f : Pipe → Pipe)
    → ((p : Pipe) → (f p).name ≡ p.name)
    → ((p : Pipe) → (f p).in_use ≡ p.in_use)
    → (ps : List Pipe) → find name (update i f ps) ≡ find name ps
unfolding find update
find-update name i f same used [] = refl
find-update name zero f same used (p ∷ ps) = rw (same p, used p) refl
find-update name (suc i) f same used (p ∷ ps) = rw (find-update name i f same used ps) refl

find-made :
    (name : List ℕ) (i : ℕ) (ps : List Pipe)
    → length name < name_max
    → find name ps ≡ none
    → free_slot ps ≡ some i
    → find name (update i (made name) ps) ≡ some i
unfolding find free_slot update made
find-made name i [] short f s = absurd (cc)
find-made name zero (p ∷ ps) short f s =
    ground (arith, take_all (name_max - 1) name, str_eq_iff name name)
find-made name (suc i) (p ∷ ps) short f s = ground (arith, find-made name i ps)

opened-find :
    (name : List ℕ) (mode i : ℕ) (ps : List Pipe) (st : PipePath)
    → (opened mode (i, ps)).1 ≡ some st
    → find name ps ≡ some i
    → (st.pipe ≡ i) × (find name (opened mode (i, ps)).2 ≡ some i)
unfolding opened attach
opened-find name mode i ps st h e = ground (
  arith,
  find-update name i (attach (wants_read mode) (wants_write mode)) (λ p. refl) (λ p. refl) ps,
)

find_or_make-find :
    (name : List ℕ) (i : ℕ) (ps qs : List Pipe)
    → length name < name_max
    → find_or_make name ps ≡ some (i, qs)
    → find name qs ≡ some i
unfolding find_or_make
find_or_make-find name i ps qs short h = elim (Option-cases (find name ps)) [
  | inr (j, e) ↦ ground arith
  | inl e ↦ elim (Option-cases (free_slot ps)) [
    | inr (j, k) ↦ ground (arith, find-made name j ps short e k)
    | inl k ↦ ground arith
  ]
]

find_or_make-found :
    (name : List ℕ) (i : ℕ) (ps : List Pipe)
    → find name ps ≡ some i
    → find_or_make name ps ≡ some (i, ps)
unfolding find_or_make
find_or_make-found name i ps e = ground arith

-- The guards of `pipe_open` have passed.
pub pipe_open-found :
    (name : List ℕ) (mode : ℕ) (mem : Bool) (ps : List Pipe) (st : PipePath)
    → (pipe_open (some name) mode mem ps).1 ≡ some st
    → (found : ℕ × List Pipe) × (find_or_make name ps ≡ some found)
      × (length name < name_max)
      × (pipe_open (some name) mode mem ps ≡ opened mode found)
unfolding pipe_open
pipe_open-found name mode mem ps st h = elim (Option-cases (find_or_make name ps)) [
  | inl e ↦ absurd (ground arith)
  | inr (found, e) ↦ (found, e, ground arith, ground arith)
]

pipe_open-find :
    (name : List ℕ) (mode : ℕ) (mem : Bool) (ps : List Pipe) (st : PipePath)
    → (pipe_open (some name) mode mem ps).1 ≡ some st
    → find name (pipe_open (some name) mode mem ps).2 ≡ some st.pipe
pipe_open-find name mode mem ps st h =
    let ((i, qs), e, short, same) = pipe_open-found name mode mem ps st h in
    let (at, there) =
      opened-find name mode i qs st (rw same at h) (find_or_make-find name i ps qs short e) in
    rw (same, at) there

-- Another pipe that is made does not take the name's place.
find-made_other :
    (name other : List ℕ) (i j : ℕ) (ps : List Pipe)
    → length other < name_max
    → find other ps ≡ none
    → free_slot ps ≡ some j
    → find name ps ≡ some i
    → find name (update j (made other) ps) ≡ some i
unfolding find free_slot update made
find-made_other name other i j [] short absent s f = absurd (cc)
find-made_other name other i zero (p ∷ ps) short absent s f =
    let whole : take (name_max - 1) other ≡ other = take_all (name_max - 1) other (omega arith) in
    elim (Bool-cases (str_eq other name)) [
      | inl same ↦
          let e : other ≡ name = (str_eq_iff other name).0 same in
          absurd (ground (arith, subst (λ x. find x (p ∷ ps) ≡ none) e absent, f))
      | inr differs ↦ rw (whole, differs) (ground (arith, s, f))
    ]
find-made_other name other i (suc j) (p ∷ ps) short absent s f =
    elim (Option-cases (find name ps)) [
      | inl e ↦ ground (arith, e, f, s)
      | inr (k, e) ↦ ground (
        arith,
        find-made_other name other k j ps short,
        e,
        f,
        s,
        absent,
        Option-cases (free_slot ps),
      )
    ]

find_or_make-keeps :
    (name other : List ℕ) (i : ℕ) (ps : List Pipe) (found : ℕ × List Pipe)
    → length other < name_max
    → find name ps ≡ some i
    → find_or_make other ps ≡ some found
    → find name found.1 ≡ some i
unfolding find_or_make
find_or_make-keeps name other i ps (j, qs) short f h = elim (Option-cases (find other ps)) [
  | inr (k, e) ↦ ground (arith, e, h, f)
  | inl e ↦ elim (Option-cases (free_slot ps)) [
    | inl no_slot ↦ absurd (ground (arith, e, no_slot, h))
    | inr (k, slot) ↦ ground (arith, e, slot, h, find-made_other name other i k ps short e slot f)
  ]
]

opened-keeps :
    (name : List ℕ) (mode i j : ℕ) (qs : List Pipe)
    → find name qs ≡ some i
    → find name (opened mode (j, qs)).2 ≡ some i
unfolding opened attach
opened-keeps name mode i j qs f = ground (
  arith,
  f,
  find-update name j (attach (wants_read mode) (wants_write mode)) (λ p. refl) (λ p. refl) qs,
)

-- A name that leads to a pipe leads to it after any open.
pipe_open-keeps :
    (name : List ℕ) (i : ℕ) (other : Option (List ℕ)) (mode : ℕ) (mem : Bool) (ps : List Pipe)
    → find name ps ≡ some i
    → find name (pipe_open other mode mem ps).2 ≡ some i
unfolding pipe_open
pipe_open-keeps name i none mode mem ps f = f
pipe_open-keeps name i (some other) mode mem ps f =
    elim (Bool-cases (ltb (length other) name_max)) [
      | inr long ↦ ground (arith, long, f)
      | inl short ↦ elim (Option-cases (find_or_make other ps)) [
        | inl e ↦ ground (arith, e, f)
        | inr ((j, qs), e) ↦
            let kept = find_or_make-keeps name other i ps (j, qs) (ground (arith, short)) f e in
            ground (arith, e, f, opened-keeps name mode i j qs kept)
      ]
    ]

-- Opens, one after the other: the name, the mode and whether there was memory.
abbrev pub after_opens : List (Option (List ℕ) × ℕ × Bool) → List Pipe → List Pipe
after_opens [] ps = ps
after_opens ((other, mode, mem) ∷ os) ps = after_opens os (pipe_open other mode mem ps).2

after_opens-keeps :
    (name : List ℕ) (i : ℕ) (os : List (Option (List ℕ) × ℕ × Bool)) (ps : List Pipe)
    → find name ps ≡ some i
    → find name (after_opens os ps) ≡ some i
after_opens-keeps name i [] ps f = f
after_opens-keeps name i ((other, mode, mem) ∷ os) ps f =
    after_opens-keeps name i os (pipe_open other mode mem ps).2
      (pipe_open-keeps name i other mode mem ps f)

-- Two successful opens of one name find the same pipe, whether it was there before or the first open
-- made it, if nothing happens to the table between them but other opens, of whatever names and modes
-- and granted or refused.
pub pipe_open_same :
    (name : List ℕ) (mode mode' : ℕ) (mem mem' : Bool) (os : List (Option (List ℕ) × ℕ × Bool))
    (ps : List Pipe) (st st' : PipePath)
    → (pipe_open (some name) mode mem ps).1 ≡ some st
    → (pipe_open (some name) mode' mem' (after_opens os (pipe_open (some name) mode mem ps).2)).1
      ≡ some st'
    → st.pipe ≡ st'.pipe
pipe_open_same name mode mode' mem mem' os ps st st' h h' =
    let qs = after_opens os (pipe_open (some name) mode mem ps).2 in
    let there : find name qs ≡ some st.pipe =
      after_opens-keeps name st.pipe os (pipe_open (some name) mode mem ps).2
        (pipe_open-find name mode mem ps st h) in
    let (found, e, short, same) = pipe_open-found name mode' mem' qs st' h' in
    let known : found ≡ (st.pipe, qs) = ground (arith, find_or_make-found name st.pipe qs there) in
    let first : (opened mode' (st.pipe, qs)).1 ≡ some st' =
      ap (λ f. (opened mode' f).1) (sym known) ∙ (ap (λ r. r.1) (sym same) ∙ h') in
    sym (opened-find name mode' st.pipe qs st' first there).0
