-- ===== src/Pipe/Open/Live.antt =====
-- pipefm.c: a pipe in use has somebody at one of its ends.
use rv.Prelude.{
  ℕ, zero, suc, ◌+◌, ◌<◌, ◌≡◌, refl, ap, inl, inr, Bool, true, false, not, ◌&&◌, ◌||◌, Option, none,
  some, List, [], ◌∷◌, arith, ltb, Option-cases, length, get_elem?, all,
}
use rv.Pipe.{Pipe, PipePath, wrong_mode, name_max}
use rv.Pipe.Open.{
  find, free_slot, update, made, find_or_make, wants_read, wants_write, attach, opened, pipe_open,
  detach, emptied, left_by, pipe_close,
}

abbrev pub is_live : Pipe → Bool
is_live p = not p.in_use || ltb 0 (p.readers + p.writers)

-- Neither count is at its limit.
abbrev pub has_room : Pipe → Bool
has_room p = ltb p.readers 0xffff_ffff && ltb p.writers 0xffff_ffff

all-update :
    (keep : Pipe → Bool) (room : Pipe → Bool) (f : Pipe → Pipe)
    → ((p : Pipe) → room p ≡ true → keep (f p) ≡ true)
    → (i : ℕ) (ps : List Pipe) → all room ps ≡ true
    → all keep ps ≡ true
    → all keep (update i f ps) ≡ true
unfolding update
all-update keep room f step i [] r h = refl
all-update keep room f step zero (p ∷ ps) r h = ground (arith, step p)
all-update keep room f step (suc i) (p ∷ ps) r h = ground (arith, all-update keep room f step i ps)

all_rooms : (ps : List Pipe) → all (λ (p : Pipe). true) ps ≡ true
all_rooms [] = refl
all_rooms (p ∷ qs) = all_rooms qs

attach-live :
    (reading writing : Bool) (p : Pipe)
    → (reading || writing) ≡ true
    → has_room p ≡ true
    → is_live (attach reading writing p) ≡ true
unfolding attach
attach-live reading writing p h r = ground arith

made-room : (name : List ℕ) (p : Pipe) → has_room (made name p) ≡ true
unfolding made
made-room name p = refl

left_by-live : (st : PipePath) (p : Pipe) → is_live (left_by st p) ≡ true
unfolding emptied detach
left_by-live st p = ground arith

-- After a close no pipe stays in use with nobody at either end.
pub pipe_close-live :
    (st : Option PipePath) (ps : List Pipe)
    → all is_live ps ≡ true
    → all is_live (pipe_close st ps) ≡ true
unfolding pipe_close
pipe_close-live none ps h = h
pipe_close-live (some st) ps h =
    all-update is_live (λ p. true) (left_by st) (λ p r. left_by-live st p) st.pipe ps (all-true ps)
      h
  where
    all-true : (qs : List Pipe) → all (λ (p : Pipe). true) qs ≡ true
    all-true [] = refl
    all-true (p ∷ qs) = all-true qs

update-update :
    (i : ℕ) (f g : Pipe → Pipe) (ps : List Pipe)
    → update i g (update i f ps) ≡ update i (λ p. g (f p)) ps
unfolding update
update-update i f g [] = refl
update-update zero f g (p ∷ ps) = refl
update-update (suc i) f g (p ∷ ps) = ap (◌∷◌ p) (update-update i f g ps)

opened-update :
    (mode i : ℕ) (ps : List Pipe)
    → (wants_read mode || wants_write mode) ≡ true
    → (opened mode (i, ps)).2 ≡ update i (attach (wants_read mode) (wants_write mode)) ps
unfolding opened
opened-update mode i ps m = ground arith

found-live :
    (name : List ℕ) (mode : ℕ) (ps : List Pipe) (found : ℕ × List Pipe)
    → (wants_read mode || wants_write mode) ≡ true
    → all has_room ps ≡ true
    → all is_live ps ≡ true
    → find_or_make name ps ≡ some found
    → all is_live (opened mode found).2 ≡ true
unfolding find_or_make
found-live name mode ps (i, qs) m r h e =
    let f = attach (wants_read mode) (wants_write mode) in
    rw (opened-update mode i qs m) (elim (Option-cases (find name ps)) [
      | inr (j, k) ↦
          let old : ps ≡ qs = ground arith in
          rw (← old) (
            all-update is_live has_room f
              (λ p t. attach-live (wants_read mode) (wants_write mode) p m t) i ps r h)
      | inl k ↦ elim (Option-cases (free_slot ps)) [
        | inr (j, l) ↦
            let new : update i (made name) ps ≡ qs = ground arith in
            rw (← new, update-update i (made name) f ps)
              (all-update is_live (λ p. true) (λ p. f (made name p))
                (λ p t.
                  attach-live (wants_read mode) (wants_write mode) (made name p) m
                    (made-room name p))
                i ps (all_rooms ps) h)
        | inl l ↦ absurd (ground arith)
      ]
    ])

-- An open for reading or writing, refused or not, leaves no pipe in use with nobody at either end,
-- if there was none before and no count was at its limit.
pub pipe_open-live :
    (rest : Option (List ℕ)) (mode : ℕ) (mem : Bool) (ps : List Pipe)
    → (wants_read mode || wants_write mode) ≡ true
    → all has_room ps ≡ true
    → all is_live ps ≡ true
    → all is_live (pipe_open rest mode mem ps).2 ≡ true
unfolding pipe_open
pipe_open-live none mode mem ps m r h = h
pipe_open-live (some name) mode mem ps m r h = elim (Option-cases (find_or_make name ps)) [
  | inl e ↦ ground arith
  | inr (found, e) ↦ ground (arith, found-live name mode ps found m r h e)
]

free_slot-get_elem? :
    (i : ℕ) (f : Pipe → Pipe) (ps : List Pipe)
    → free_slot ps ≡ some i
    → (p : Pipe) × (get_elem? (update i f ps) i ≡ some (f p))
unfolding free_slot update
free_slot-get_elem? i f [] h = absurd (cc)
free_slot-get_elem? zero f (p ∷ ps) h = (p, refl)
free_slot-get_elem? (suc i) f (p ∷ ps) h = free_slot-get_elem? i f ps (ground arith)

-- An open for neither reading nor writing is refused, but where it named a new pipe the slot that
-- it took stays in use with nobody at either end. The name must fit, the path's state be allocated,
-- and a slot be free.
pub pipe_open_leaks :
    (name : List ℕ) (mode i : ℕ) (ps : List Pipe)
    → (wants_read mode || wants_write mode) ≡ false
    → 0 < length name
    → length name < name_max
    → find name ps ≡ none
    → free_slot ps ≡ some i
    → (p : Pipe) × (pipe_open (some name) mode true ps
        ≡ (wrong_mode, none, update i (made name) ps))
      × (get_elem? (update i (made name) ps) i ≡ some p)
      × (p.in_use ≡ true)
      × (p.readers ≡ 0)
      × (p.writers ≡ 0)
unfolding pipe_open opened find_or_make made
pipe_open_leaks name mode i ps m l short f s =
    let (p, at) = free_slot-get_elem? i (made name) ps s in
    (made name p, ground arith, at, refl, refl, refl)
