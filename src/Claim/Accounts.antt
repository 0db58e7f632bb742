-- ===== src/Claim/Accounts.antt =====
-- claim.c: a record's count against who refers to it. `held a` is how many open paths point at the
-- record at `a`; a reservation accounts for one reference more.
use rv.Prelude.{
  ℕ, ◌+◌, ◌-◌, ◌≤◌, ◌<◌, ◌≡◌, refl, ◌≢◌, ◌⊎◌, inl, Bool, true, not, List, [], ◌∷◌, arith, ◌==◌,
  if◌then◌else◌, all,
}
use rv.Claim.{Claim, modify}
use rv.Claim.Invariant.{agrees, Consistent}
use rv.Claim.Drop.{dropped}
use rv.Claim.Release.{released}

abbrev pub absent : ℕ → List Claim → Bool
absent a = all (λ c. not (c.addr == a))

abbrev pub weight : Claim → ℕ
weight c = if c.reserved then 1 else 0

abbrev pub counted : (ℕ → ℕ) → Claim → Bool
counted held c = c.refs == held c.addr + weight c

-- Every count is what its paths and its reservation come to, and no path points at a record that
-- is not there.
pub record Accounted (held : ℕ → ℕ) (cs : List Claim) : Type 0 where
  pub exact : all (counted held) cs ≡ true
  pub present : (a : ℕ) → absent a cs ≡ true → held a ≡ 0

abbrev pub more : ℕ → (ℕ → ℕ) → ℕ → ℕ
more a held x = if x == a then held x + 1 else held x

abbrev pub fewer : ℕ → (ℕ → ℕ) → ℕ → ℕ
fewer a held x = if x == a then held x - 1 else held x

-- Records elsewhere do not see a change of `held` at one address.
module _ (held held' : ℕ → ℕ) (a : ℕ) (same : (x : ℕ) → x ≢ a → held' x ≡ held x) where
  counted-elsewhere :
      (c : Claim) (cs : List Claim)
      → c.addr ≡ a
      → all (agrees c) cs ≡ true
      → all (counted held) cs ≡ true
      → all (counted held') cs ≡ true
  counted-elsewhere c [] e h k = refl
  counted-elsewhere c (d ∷ cs) e h k = ground (arith, counted-elsewhere c cs, same d.addr)

  -- A change of the record at `a` that follows the change of `held`.
  pub counted-modify :
      (f : Claim → Claim)
      → ((c : Claim) → (f c).addr ≡ c.addr)
      → (room : Claim → Bool)
      → ((c : Claim)
          → room c ≡ true
          → c.addr ≡ a
          → counted held c ≡ true
          → counted held' (f c) ≡ true)
      → (cs : List Claim) → Consistent cs
      → all room cs ≡ true
      → all (counted held) cs ≡ true
      → all (counted held') (modify a f cs) ≡ true
  unfolding modify
  counted-modify f fixed room step [] v r k = refl
  counted-modify f fixed room step (c ∷ cs) v r k =
      ground (
        arith,
        step c,
        same c.addr,
        counted-elsewhere c cs,
        counted-modify f fixed room step cs v.2,
      )

  pub counted-dropped :
      ((c : Claim)
        → c.addr ≡ a
        → counted held c ≡ true
        → 1 < c.refs
        → counted held' (record c { refs = c.refs - 1 }) ≡ true)
      → (cs : List Claim) → Consistent cs
      → all (counted held) cs ≡ true
      → all (counted held') (dropped a cs) ≡ true
  unfolding dropped
  counted-dropped step [] v k = refl
  counted-dropped step (c ∷ cs) v k =
      ground (arith, step c, same c.addr, counted-elsewhere c cs, counted-dropped step cs v.2)

pub absent-modify :
    (a b : ℕ) (f : Claim → Claim) (cs : List Claim)
    → ((c : Claim) → (f c).addr ≡ c.addr)
    → absent b (modify a f cs) ≡ absent b cs
unfolding modify
absent-modify a b f [] fixed = refl
absent-modify a b f (c ∷ cs) fixed = ground (arith, fixed c, absent-modify a b f cs fixed)

-- A record that was dropped altogether had one reference.
pub absent-dropped :
    (held : ℕ → ℕ) (a b : ℕ) (cs : List Claim)
    → all (counted held) cs ≡ true
    → absent b (dropped a cs) ≡ true
    → (absent b cs ≡ true) ⊎ ((a ≡ b) × (held b ≤ 1))
unfolding dropped
absent-dropped held a b [] k h = inl refl
absent-dropped held a b (c ∷ cs) k h = ground (arith, absent-dropped held a b cs)

pub absent-released :
    (held : ℕ → ℕ) (owner b : ℕ) (cs : List Claim)
    → all (counted held) cs ≡ true
    → absent b (released owner cs) ≡ true
    → (absent b cs ≡ true) ⊎ (held b ≡ 0)
unfolding released
absent-released held owner b [] k h = inl refl
absent-released held owner b (c ∷ cs) k h = ground (arith, absent-released held owner b cs)

pub counted-released :
    (held : ℕ → ℕ) (owner : ℕ) (cs : List Claim)
    → all (counted held) cs ≡ true
    → all (counted held) (released owner cs) ≡ true
unfolding released
counted-released held owner [] k = refl
counted-released held owner (c ∷ cs) k = ground (arith, counted-released held owner cs)
