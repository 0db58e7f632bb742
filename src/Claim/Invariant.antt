-- ===== src/Claim/Invariant.antt =====
-- claim.c: what a list of claims may look like, and the changes to one record that keep it so.
use rv.Prelude.{
  ℕ, ◌<◌, ◌≡◌, refl, ◌⊎◌, Bool, true, false, not, ◌&&◌, ◌||◌, Option, none, some, List, [], ◌∷◌,
  arith, ltb, ◌==◌, if◌then◌else◌, str_eq, str_eq_iff, all,
}
use rv.Claim.{Claim, clear, modify, scan}

-- Two records are different allocations, and where they name one resource they have different
-- owners and neither is exclusive.
abbrev pub agrees : Claim → Claim → Bool
agrees c d =
    not (c.addr == d.addr)
    && (not (str_eq c.name d.name) || not (c.owner == d.owner) && not (c.exclusive || d.exclusive))

abbrev pub Consistent : List Claim → Type 0
Consistent [] = Unit {0}
Consistent (c ∷ cs) = (0 < c.refs) × (all (agrees c) cs ≡ true) × Consistent cs

-- The record at `a` is the claim of `owner` on `res`.
abbrev pub holds_at : ℕ → List ℕ → ℕ → List Claim → Bool
holds_at a res owner [] = false
holds_at a res owner (c ∷ cs) =
    if c.addr == a then str_eq c.name res && c.owner == owner else holds_at a res owner cs

-- `c` does not stand in the way of `owner` on `res`.
abbrev pub admits : List ℕ → ℕ → Bool → Claim → Bool
admits res owner exclusive c =
    not (str_eq c.name res) || c.owner == owner || not (c.exclusive || exclusive)

abbrev pub is_own : List ℕ → ℕ → Claim → Bool
is_own res owner c = str_eq c.name res && c.owner == owner

pub scan-admits :
    (res : List ℕ) (owner : ℕ) (exclusive : Bool) (mine found : Option ℕ) (cs : List Claim)
    → scan res owner exclusive mine cs ≡ clear found
    → all (admits res owner exclusive) cs ≡ true
unfolding scan
scan-admits res owner exclusive mine found [] h = refl
scan-admits res owner exclusive mine found (c ∷ cs) h = ground (
  arith,
  scan-admits res owner exclusive mine found cs,
  scan-admits res owner exclusive (some c.addr) found cs,
)

pub not-holds_at :
    (a : ℕ) (res : List ℕ) (owner : ℕ) (c : Claim) (cs : List Claim)
    → all (agrees c) cs ≡ true
    → holds_at a res owner cs ≡ true
    → (c.addr == a) ≡ false
not-holds_at a res owner c [] h e = ground arith
not-holds_at a res owner c (d ∷ cs) h e = ground (arith, not-holds_at a res owner c cs)

-- What the scan hands back is the caller's own record.
pub scan-holds_at :
    (res : List ℕ) (owner : ℕ) (exclusive : Bool) (mine : Option ℕ) (a : ℕ) (cs : List Claim)
    → Consistent cs
    → scan res owner exclusive mine cs ≡ clear (some a)
    → (mine ≡ some a) ⊎ (holds_at a res owner cs ≡ true)
unfolding scan
scan-holds_at res owner exclusive mine a [] v h = ground arith
scan-holds_at res owner exclusive mine a (c ∷ cs) v h = ground (
  arith,
  scan-holds_at res owner exclusive mine a cs v.2,
  scan-holds_at res owner exclusive (some c.addr) a cs v.2,
  not-holds_at a res owner c cs,
)

-- If the scan finds nothing of the caller's, there is nothing.
pub scan-none :
    (res : List ℕ) (owner : ℕ) (exclusive : Bool) (mine : Option ℕ) (cs : List Claim)
    → scan res owner exclusive mine cs ≡ clear none
    → (mine ≡ none) × (all (λ c. not (is_own res owner c)) cs ≡ true)
unfolding scan
scan-none res owner exclusive mine [] h = ground arith
scan-none res owner exclusive mine (c ∷ cs) h =
    ground
      (arith, scan-none res owner exclusive mine cs, scan-none res owner exclusive (some c.addr) cs)

-- A change of one record that keeps what `agrees` reads, but may make it exclusive where `admits`
-- has passed every record for `res`.
-- `room` is what the change needs to leave a positive count.
module _ (f : Claim → Claim) (exclusive : Bool) (room : Claim → Bool)
    (same_addr : (c : Claim) → (f c).addr ≡ c.addr) (same_name : (c : Claim) → (f c).name ≡ c.name)
    (same_owner : (c : Claim) → (f c).owner ≡ c.owner)
    (raises : (c : Claim) → (f c).exclusive ≡ (exclusive || c.exclusive))
    (counted : (c : Claim) → room c ≡ true → 0 < c.refs → 0 < (f c).refs) where
  agrees-raised :
      (res : List ℕ) (owner : ℕ) (c d : Claim)
      → is_own res owner c ≡ true
      → admits res owner exclusive d ≡ true
      → agrees c d ≡ true
      → agrees (f c) d ≡ true
  agrees-raised res owner c d own adm h = ground (
    arith,
    same_addr c,
    same_name c,
    same_owner c,
    raises c,
    str_eq_iff c.name d.name,
    str_eq_iff (f c).name d.name,
    str_eq_iff c.name res,
    str_eq_iff d.name res,
  )

  agrees-raised_right :
      (res : List ℕ) (owner : ℕ) (c d : Claim)
      → is_own res owner d ≡ true
      → admits res owner exclusive c ≡ true
      → agrees c d ≡ true
      → agrees c (f d) ≡ true
  agrees-raised_right res owner c d own adm h = ground (
    arith,
    same_addr d,
    same_name d,
    same_owner d,
    raises d,
    str_eq_iff c.name d.name,
    str_eq_iff c.name (f d).name,
    str_eq_iff c.name res,
    str_eq_iff d.name res,
  )

  all-agrees-raised :
      (res : List ℕ) (owner : ℕ) (c : Claim) (cs : List Claim)
      → is_own res owner c ≡ true
      → all (admits res owner exclusive) cs ≡ true
      → all (agrees c) cs ≡ true
      → all (agrees (f c)) cs ≡ true
  all-agrees-raised res owner c [] own adm h = refl
  all-agrees-raised res owner c (d ∷ cs) own adm h =
      let here = agrees-raised res owner c d own (ground arith) (ground arith) in
      let rest = all-agrees-raised res owner c cs own (ground arith) (ground arith) in rw here rest

  all-agrees-modify :
      (a : ℕ) (res : List ℕ) (owner : ℕ) (c : Claim) (cs : List Claim)
      → holds_at a res owner cs ≡ true
      → admits res owner exclusive c ≡ true
      → all (agrees c) cs ≡ true
      → all (agrees c) (modify a f cs) ≡ true
  unfolding modify
  all-agrees-modify a res owner c [] own adm h = refl
  all-agrees-modify a res owner c (d ∷ cs) own adm h =
      ground (arith, agrees-raised_right res owner c d, all-agrees-modify a res owner c cs)

  pub Consistent-modify :
      (a : ℕ) (res : List ℕ) (owner : ℕ) (cs : List Claim)
      → all room cs ≡ true
      → holds_at a res owner cs ≡ true
      → all (admits res owner exclusive) cs ≡ true
      → Consistent cs
      → Consistent (modify a f cs)
  unfolding modify
  Consistent-modify a res owner [] r own adm v = v
  Consistent-modify a res owner (c ∷ cs) r own adm v = ground (
    arith,
    counted c,
    all-agrees-raised res owner c cs,
    all-agrees-modify a res owner c cs,
    Consistent-modify a res owner cs,
  )

module _ (p : Claim → Bool) (f : Claim → Claim) where
  pub all-modify :
      ((c : Claim) → p c ≡ true → p (f c) ≡ true)
      → (a : ℕ) (cs : List Claim) → all p cs ≡ true
      → all p (modify a f cs) ≡ true
  unfolding modify
  all-modify keep a [] h = refl
  all-modify keep a (c ∷ cs) h = ground (arith, keep c, all-modify keep a cs)

-- A change of one record that keeps all that `agrees` reads.
module _ (f : Claim → Claim) (same_addr : (c : Claim) → (f c).addr ≡ c.addr)
    (same_name : (c : Claim) → (f c).name ≡ c.name)
    (same_owner : (c : Claim) → (f c).owner ≡ c.owner)
    (same_exclusive : (c : Claim) → (f c).exclusive ≡ c.exclusive)
    (same_refs : (c : Claim) → (f c).refs ≡ c.refs) where
  agrees-left : (c d : Claim) → agrees c d ≡ true → agrees (f c) d ≡ true
  agrees-left c d h = rw (same_addr c, same_name c, same_owner c, same_exclusive c) h

  agrees-right : (c d : Claim) → agrees c d ≡ true → agrees c (f d) ≡ true
  agrees-right c d h = rw (same_addr d, same_name d, same_owner d, same_exclusive d) h

  all-agrees-left :
      (c : Claim) (cs : List Claim) → all (agrees c) cs ≡ true → all (agrees (f c)) cs ≡ true
  all-agrees-left c [] h = refl
  all-agrees-left c (d ∷ cs) h = ground (arith, agrees-left c d, all-agrees-left c cs)

  pub Consistent-modify_same :
      (a : ℕ) (cs : List Claim) → Consistent cs → Consistent (modify a f cs)
  unfolding modify
  Consistent-modify_same a [] v = v
  Consistent-modify_same a (c ∷ cs) v = ground (
    arith,
    same_refs c,
    all-agrees-left c cs,
    all-modify (agrees c) f (agrees-right c) a cs,
    Consistent-modify_same a cs,
  )

pub modify-modify :
    (f g : Claim → Claim)
    → ((c : Claim) → (f c).addr ≡ c.addr)
    → (a : ℕ) (cs : List Claim) → modify a g (modify a f cs) ≡ modify a (λ c. g (f c)) cs
unfolding modify
modify-modify f g same a [] = refl
modify-modify f g same a (c ∷ cs) = ground (arith, same c, modify-modify f g same a cs)

-- Every record whose reservation is outstanding is exclusive, as the loader only reserves what a
-- manifest wants alone.
abbrev pub reserved_alone : Claim → Bool
reserved_alone c = not c.reserved || c.exclusive

pub record Valid (cs : List Claim) : Type 0 where
  pub consistent : Consistent cs
  pub alone : all reserved_alone cs ≡ true

-- No record holds the last count that its uint16_t can.
abbrev pub has_room : Claim → Bool
has_room c = ltb c.refs 0xffff

-- What the allocator returns is not in use.
abbrev pub is_fresh : Option ℕ → List Claim → Bool
is_fresh none cs = true
is_fresh (some a) cs = all (λ c. not (a == c.addr)) cs

pub all-true : (cs : List Claim) → all (λ (c : Claim). true) cs ≡ true
all-true [] = refl
all-true (c ∷ cs) = all-true cs
