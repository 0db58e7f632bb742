-- ===== src/Claim/Release.antt =====
-- claim.c: `rv9_claim_release_pid`, which walks the list while it frees records of it.
use mathlib.Core.List.{append_assoc}
use rv.Prelude.{
  ℕ, ◌-◌, ◌≡◌, refl, sym, ap, ◌∙◌, inl, inr, Bool, true, false, not, ◌&&◌, List, [], ◌∷◌, ◌++◌,
  arith, ltb, ◌==◌, if◌then◌else◌, Bool-cases, all,
}
use rv.Claim.{Claim, modify, drop_locked, reserve_clear, release_from}
use rv.Claim.Invariant.{Valid, agrees, Consistent, reserved_alone}
use rv.Claim.Drop.{dropped, drop_locked-dropped}

abbrev leaves : ℕ → Claim → Bool
leaves owner c = c.owner == owner && c.reserved

-- The same record by record: a reservation of `owner` is unmarked and loses the reference that it
-- stood for; the record goes if that was its last.
unfoldable pub released : ℕ → List Claim → List Claim
released owner [] = []
released owner (c ∷ cs) =
    if c.owner == owner && c.reserved
    then if ltb 1 c.refs
      then record c { reserved = false; refs = c.refs - 1 } ∷ released owner cs
      else released owner cs
    else c ∷ released owner cs

-- No record of the list lies at `a`.
abbrev absent : ℕ → List Claim → Bool
absent a = all (λ c. not (c.addr == a))

abbrev Apart : List Claim → List Claim → Type 0
Apart seen [] = Unit {0}
Apart seen (c ∷ cs) = (absent c.addr seen ≡ true) × Apart seen cs

modify-absent :
    (a : ℕ) (f : Claim → Claim) (seen cs : List Claim)
    → absent a seen ≡ true
    → modify a f (seen ++ cs) ≡ seen ++ modify a f cs
unfolding modify
modify-absent a f [] cs h = refl
modify-absent a f (c ∷ seen) cs h = ground (arith, modify-absent a f seen cs)

dropped-absent :
    (a : ℕ) (seen cs : List Claim)
    → absent a seen ≡ true
    → dropped a (seen ++ cs) ≡ seen ++ dropped a cs
unfolding dropped
dropped-absent a [] cs h = refl
dropped-absent a (c ∷ seen) cs h = ground (arith, dropped-absent a seen cs)

absent-append :
    (a : ℕ) (seen : List Claim) (c : Claim)
    → absent a seen ≡ true
    → (c.addr == a) ≡ false
    → absent a (seen ++ c ∷ []) ≡ true
absent-append a [] c h e = ground arith
absent-append a (d ∷ seen) c h e = ground (arith, absent-append a seen c)

Apart-append :
    (seen : List Claim) (c d : Claim) (cs : List Claim)
    → d.addr ≡ c.addr
    → Apart seen cs
    → all (agrees c) cs ≡ true
    → Apart (seen ++ d ∷ []) cs
Apart-append seen c d [] same p h = tt
Apart-append seen c d (x ∷ cs) same p h = (
  absent-append x.addr seen d p.0 (ground arith),
  Apart-append seen c d cs same p.1 (ground arith),
)

-- One visit of the loop, at the record that follows those already seen.
visit :
    (seen cs : List Claim) (c : Claim)
    → absent c.addr seen ≡ true
    → (drop_locked c.addr (modify c.addr reserve_clear (seen ++ c ∷ cs))).1
      ≡ seen ++ (if ltb 1 c.refs then record c { reserved = false; refs = c.refs - 1 } ∷ cs else cs)
unfolding modify dropped
visit seen cs c h =
    drop_locked-dropped c.addr (modify c.addr reserve_clear (seen ++ c ∷ cs))
    ∙ (ap (dropped c.addr) (modify-absent c.addr reserve_clear seen (c ∷ cs) h)
        ∙ (dropped-absent c.addr seen (modify c.addr reserve_clear (c ∷ cs)) h
            ∙ ap (◌++◌ seen) (ground arith)))

append_one :
    (seen : List Claim) (c : Claim) (cs : List Claim) → seen ++ c ∷ cs ≡ (seen ++ c ∷ []) ++ cs
append_one seen c cs = sym (append_assoc seen (c ∷ []) cs)

release_from-released_after :
    (owner : ℕ) (rest seen : List Claim)
    → Consistent rest
    → Apart seen rest
    → release_from owner rest (seen ++ rest) ≡ seen ++ released owner rest
unfolding release_from released
release_from-released_after owner [] seen v p = refl
release_from-released_after owner (c ∷ cs) seen v p = elim (Bool-cases (leaves owner c)) [
  | inr stays ↦
      rw (stays, append_one seen c cs, append_one seen c (released owner cs))
        (release_from-released_after owner cs (seen ++ c ∷ []) v.2
          (Apart-append seen c c cs refl p.1 v.1))
  | inl goes ↦ elim (Bool-cases (ltb 1 c.refs)) [
    | inl more ↦
        let c' : Claim = record c { reserved = false; refs = c.refs - 1 } in
        rw
          (
            goes,
            visit seen cs c p.0,
            more,
            append_one seen c' cs,
            append_one seen c' (released owner cs),
          )
          (release_from-released_after owner cs (seen ++ c' ∷ []) v.2
            (Apart-append seen c c' cs refl p.1 v.1))
    | inr last ↦
        rw (goes, visit seen cs c p.0, last) (release_from-released_after owner cs seen v.2 p.1)
  ]
]

Apart-nil : (cs : List Claim) → Apart [] cs
Apart-nil [] = tt
Apart-nil (c ∷ cs) = (refl, Apart-nil cs)

-- On a well-formed list the walk of `rv9_claim_release_pid`, which frees records as it goes, is the
-- record-by-record release: each reservation of the owner is unmarked and loses one reference,
-- the record goes exactly if that was the last one, and every other record stays as it was, in
-- the same order.
pub release_from-released :
    (owner : ℕ) (cs : List Claim) → Consistent cs → release_from owner cs cs ≡ released owner cs
release_from-released owner cs v = release_from-released_after owner cs [] v (Apart-nil cs)

all-released :
    (p : Claim → Bool)
    → ((c : Claim) → p c ≡ true → p (record c { reserved = false; refs = c.refs - 1 }) ≡ true)
    → (owner : ℕ) (cs : List Claim) → all p cs ≡ true
    → all p (released owner cs) ≡ true
unfolding released
all-released p keep owner [] h = refl
all-released p keep owner (c ∷ cs) h = ground (arith, keep c, all-released p keep owner cs)

all-agrees-released :
    (c : Claim) (n : ℕ) (b : Bool) (cs : List Claim)
    → all (agrees c) cs ≡ true
    → all (agrees (record c { reserved = b; refs = n })) cs ≡ true
all-agrees-released c n b [] h = refl
all-agrees-released c n b (d ∷ cs) h = ground (arith, all-agrees-released c n b cs)

released-Consistent : (owner : ℕ) (cs : List Claim) → Consistent cs → Consistent (released owner cs)
unfolding released
released-Consistent owner [] v = v
released-Consistent owner (c ∷ cs) v = ground (
  arith,
  all-released (agrees c) (λ d h. h) owner cs v.1,
  all-agrees-released c (c.refs - 1) false (released owner cs),
  released-Consistent owner cs v.2,
)

-- Releasing what a process reserved keeps the list well formed.
pub release_from-Valid : (owner : ℕ) (cs : List Claim) → Valid cs → Valid (release_from owner cs cs)
release_from-Valid owner cs v = rw (release_from-released owner cs v.consistent) (record {
  consistent = released-Consistent owner cs v.consistent;
  alone = all-released reserved_alone (λ c h. ground arith) owner cs v.alone;
})
