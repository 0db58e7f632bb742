-- ===== src/Prelude/Ring.antt =====
-- A buffer used as a ring: the elements from one place on, around its end.
use Prim.Native.Nat.{ℕ, zero, suc, ◌+◌, ◌-◌, ◌%◌, ◌^◌, ◌≤◌, ◌<◌}
use mathlib.Core.Path.{◌≡◌, ap, ap₂, ◌∙◌}
use mathlib.Core.Logic.{◌≢◌, inl, inr}
use mathlib.Core.List.{List, [], ◌∷◌, ◌++◌}
use native.Mathlib.Nat.{mod-eq_of_lt, mod-eq-sub-mod}
use native.Mathlib.Omega.{arith}
use rv.Prelude.Choice.{ltb, if◌then◌else◌, Bool-cases}
use rv.Prelude.Lists.{length, get_or, set, get_or-set_self, get_or-set_ne}

-- The place `n` elements after `h`, for `h` below the capacity and `n` at most the capacity.
abbrev pub adv : ℕ → ℕ → ℕ → ℕ
adv size h n = if ltb (h + n) size then h + n else h + n - size

pub adv_in : (size h n : ℕ) → h < size → n ≤ size → adv size h n < size
adv_in size h n lt le = ground arith

pub adv-adv :
    (size h m : ℕ) → h < size → suc m ≤ size → adv size (adv size h 1) m ≡ adv size h (suc m)
adv-adv size h m lt le = ground arith

pub adv_zero : (size h : ℕ) → h < size → adv size h 0 ≡ h
adv_zero size h lt = ground arith

-- As the code computes it, in 32 bits.
pub mod_adv :
    (size h n : ℕ) → h < size → n ≤ size → size ≤ 2 ^ 31 → (h + n) % 2 ^ 32 % size ≡ adv size h n
mod_adv size h n lt le small =
    let narrow : (h + n) % 2 ^ 32 ≡ h + n = omega arith in
    rw narrow (elim (Bool-cases (ltb (h + n) size)) [
      | inl below ↦ rw below (mod-eq_of_lt (ground arith))
      | inr above ↦
          rw above
            (mod-eq-sub-mod {n = h + n} {m = size} (ground arith) ∙ mod-eq_of_lt (ground arith))
    ])

pub adv_sub :
    (size h n m : ℕ) → h < size → n ≤ m → m ≤ size → adv size (adv size h n) (m - n) ≡ adv size h m
adv_sub size h n m lt le top = ground arith

pub adv_add :
    (size h m n : ℕ) → h < size → m + n ≤ size → adv size (adv size h m) n ≡ adv size h (m + n)
adv_add size h m n lt le = ground arith

-- `d` stands for what lies out of bounds.
module _ {ℓ} {A : Type ℓ} (d : A) where
  -- The `n` elements that begin at `h` and go on from the start of the buffer.
  abbrev pub ring : List A → ℕ → ℕ → ℕ → List A
  ring store size h zero = []
  ring store size h (suc n) = get_or store h d ∷ ring store size (adv size h 1) n

  pub ring-set_self :
      (store : List A) (size h n : ℕ) (b : A) (t : ℕ)
      → size ≤ length store
      → h < size
      → n < size
      → t ≡ adv size h n
      → ring (set store t b) size h (suc n) ≡ ring store size h n ++ b ∷ []
  ring-set_self store size h zero b t fits lt le e =
      let here : t ≡ h = ground arith in
      ap (λ x. x ∷ []) (rw here (get_or-set_self store h b d (omega arith)))
  ring-set_self store size h (suc n) b t fits lt le e =
      let apart : t ≢ h = ground arith in
      let there : t ≡ adv size (adv size h 1) n = ground arith in
      ap₂ ◌∷◌ (get_or-set_ne store b d apart) (
        ring-set_self store size (adv size h 1) n b t fits (adv_in size h 1 lt (omega arith))
          (omega arith) there)
