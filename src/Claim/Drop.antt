-- ===== src/Claim/Drop.antt =====
-- claim.c: `drop_locked`, and that it undoes `take_locked`.
use rv.Prelude.{
  ℕ, ◌-◌, ◌≡◌, refl, ◌∙◌, inl, inr, Bool, true, false, Option, none, some, List, [], ◌∷◌, arith,
  ltb, ◌==◌, if◌then◌else◌, all,
}
use rv.Claim.{
  Claim, modify, scan, join, new_claim, take_locked, refs_at, unlink, release_ref, drop_locked,
  make_exclusive,
}
use rv.Claim.Take.{Scan-cases}
use rv.Claim.Invariant.{Valid, agrees, Consistent, reserved_alone, has_room}

-- `drop_locked` in one pass: the record loses a reference, and goes with the last.
unfoldable pub dropped : ℕ → List Claim → List Claim
dropped a [] = []
dropped a (c ∷ cs) =
    if c.addr == a
    then if ltb 1 c.refs then record c { refs = c.refs - 1 } ∷ cs else cs
    else c ∷ dropped a cs

drop_locked-dropped_at :
    (a : ℕ) (cs : List Claim)
    → (if ltb 0 (refs_at a (modify a release_ref cs))
        then modify a release_ref cs
        else unlink a (modify a release_ref cs))
      ≡ dropped a cs
unfolding modify release_ref refs_at unlink dropped
drop_locked-dropped_at a [] = refl
drop_locked-dropped_at a (c ∷ cs) = ground (arith, drop_locked-dropped_at a cs)

pub drop_locked-dropped : (a : ℕ) (cs : List Claim) → (drop_locked a cs).1 ≡ dropped a cs
unfolding drop_locked
drop_locked-dropped a cs = ground (arith, drop_locked-dropped_at a cs)

pub all-dropped :
    (p : Claim → Bool)
    → ((c : Claim) → p c ≡ true → p (record c { refs = c.refs - 1 }) ≡ true)
    → (a : ℕ) (cs : List Claim) → all p cs ≡ true
    → all p (dropped a cs) ≡ true
unfolding dropped
all-dropped p keep a [] h = refl
all-dropped p keep a (c ∷ cs) h = ground (arith, keep c, all-dropped p keep a cs)

pub dropped-Consistent : (a : ℕ) (cs : List Claim) → Consistent cs → Consistent (dropped a cs)
unfolding dropped
dropped-Consistent a [] v = v
dropped-Consistent a (c ∷ cs) v =
    ground (arith, all-dropped (agrees c) (λ d h. h) a cs v.1, dropped-Consistent a cs v.2)

-- Dropping a reference keeps the list well formed, whatever pointer is dropped.
pub drop_locked-Valid : (a : ℕ) (cs : List Claim) → Valid cs → Valid (drop_locked a cs).1
drop_locked-Valid a cs v = rw (drop_locked-dropped a cs) (record {
  consistent = dropped-Consistent a cs v.consistent;
  alone = all-dropped reserved_alone (λ c h. h) a cs v.alone;
})

-- What a join left behind when its reference is dropped again: the exclusive mark stays.
dropped-join :
    (a : ℕ) (exclusive : Bool) (cs : List Claim)
    → Consistent cs
    → all has_room cs ≡ true
    → dropped a (modify a (join exclusive) cs) ≡ modify a (make_exclusive exclusive) cs
unfolding dropped modify join make_exclusive
dropped-join a exclusive [] v room = refl
dropped-join a exclusive (c ∷ cs) v room = ground (arith, dropped-join a exclusive cs)

modify_none : (a : ℕ) (cs : List Claim) → modify a (make_exclusive false) cs ≡ cs
unfolding modify make_exclusive
modify_none a [] = refl
modify_none a (c ∷ cs) = ground (arith, modify_none a cs)

-- An open that is given up at once leaves no trace: where `take_locked` succeeds for a shared
-- claim, dropping the pointer it hands out restores the list exactly. The records must be well
-- formed and have room for one more reference.
pub drop_locked-take_locked :
    (res : List ℕ) (owner : ℕ) (mem : Option ℕ) (a : ℕ) (cs : List Claim)
    → Consistent cs
    → all has_room cs ≡ true
    → (take_locked res owner false mem cs).1 ≡ some a
    → (drop_locked a (take_locked res owner false mem cs).2).1 ≡ cs
unfolding take_locked new_claim dropped
drop_locked-take_locked res owner mem a cs v room h =
    drop_locked-dropped a (take_locked res owner false mem cs).2 ∙ restored mem h
  where
    restored :
        (mem : Option ℕ)
        → (take_locked res owner false mem cs).1 ≡ some a
        → dropped a (take_locked res owner false mem cs).2 ≡ cs
    restored none h = elim (Scan-cases (scan res owner false none cs)) [
      | inl (by, e) ↦ ground arith
      | inr (inl (x, e)) ↦ ground (arith, dropped-join a false cs v room, modify_none a cs)
      | inr (inr e) ↦ ground arith
    ]
    restored (some b) h = elim (Scan-cases (scan res owner false none cs)) [
      | inl (by, e) ↦ ground arith
      | inr (inl (x, e)) ↦ ground (arith, dropped-join a false cs v room, modify_none a cs)
      | inr (inr e) ↦ ground arith
    ]
