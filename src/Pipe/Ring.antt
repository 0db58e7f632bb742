-- ===== src/Pipe/Ring.antt =====
-- pipefm.c: the buffer of a pipe as a queue of bytes.
use mathlib.Core.List.{append-nil, append_assoc}
use rv.Prelude.{
  ℕ, zero, suc, ◌+◌, ◌-◌, ◌^◌, ◌≤◌, ◌<◌, ◌≡◌, refl, sym, ap, ap₂, ◌∙◌, inl, inr, List, [], ◌∷◌,
  ◌++◌, arith, ltb, if◌then◌else◌, Bool-cases, length, get_or, set, take, drop, length-set,
  length-take, take-add, adv, adv_in, adv-adv, adv_zero, ring, ring-set_self,
}
use rv.Pipe.{Pipe, copy_out, copy_in, at_most}

-- The `n` bytes that begin at `h` and go on from the start of the buffer.
abbrev pub slice : List ℕ → ℕ → ℕ → ℕ → List ℕ
slice store size h n = ring 0 store size h n

pub length-slice : (store : List ℕ) (size h n : ℕ) → length (slice store size h n) ≡ n
length-slice store size h zero = refl
length-slice store size h (suc n) = ap suc (length-slice store size (adv size h 1) n)

-- The bytes that are present, oldest first.
abbrev pub contents : Pipe → List ℕ
contents p = slice p.store p.capacity p.head p.count

pub record IsValid (p : Pipe) : Type 0 where
  pub capacity_pos : 0 < p.capacity
  pub small : p.capacity ≤ 2 ^ 31
  pub fits : p.capacity ≤ length p.store
  pub head_in : p.head < p.capacity
  pub count_in : p.count ≤ p.capacity
  pub tail_at : p.tail ≡ adv p.capacity p.head p.count

-- Up to the end of the buffer a slice is one copy.
copy_out-slice :
    (store : List ℕ) (size h n : ℕ) → h + n ≤ size → copy_out store h n ≡ slice store size h n
unfolding copy_out
copy_out-slice store size h zero e = refl
copy_out-slice store size h (suc zero) e = refl
copy_out-slice store size h (suc (suc n)) e = ap (◌∷◌ (get_or store h 0)) (
    let here : adv size h 1 ≡ h + 1 = ground arith in
    rw here (copy_out-slice store size (h + 1) (suc n) (omega arith)))

pub slice-append :
    (store : List ℕ) (size h m n : ℕ)
    → h < size
    → m ≤ size
    → slice store size h (m + n) ≡ slice store size h m ++ slice store size (adv size h m) n
slice-append store size h zero n lt le =
    let here : h ≡ adv size h 0 = sym (adv_zero size h lt) in
    ap₂ (λ a k. slice store size a k) here (omega arith)
slice-append store size h (suc m) n lt le =
    let long : suc m + n ≡ suc (m + n) = omega arith in
    ap (slice store size h) long
    ∙ ap (◌∷◌ (get_or store h 0)) (
        rw (← adv-adv size h m lt le) (
          slice-append store size (adv size h 1) m n (adv_in size h 1 lt (omega arith))
            (omega arith)))

-- What is taken in one or two copies is the slice.
pub copies-slice :
    (store : List ℕ) (size h n : ℕ)
    → h < size
    → n ≤ size
    → let first = at_most (size - h) n in
      copy_out store h first ++ (if ltb first n then copy_out store 0 (n - first) else [])
      ≡ slice store size h n
copies-slice store size h n lt le = elim (Bool-cases (ltb n (size - h))) [
  | inl short ↦ ground (arith, copy_out-slice store size h n, append-nil (slice store size h n))
  | inr long ↦ ground (
    arith,
    copy_out-slice store size h (size - h),
    copy_out-slice store size 0 (n - (size - h)),
    slice-append store size h (size - h) (n - (size - h)),
    append-nil (slice store size h n),
  )
]

-- One byte after another into the buffer.
abbrev pub push_all : List ℕ → ℕ → ℕ → List ℕ → List ℕ
push_all store size t [] = store
push_all store size t (b ∷ bs) = push_all (set store t b) size (adv size t 1) bs

pub length-push_all :
    (store : List ℕ) (size t : ℕ) (bs : List ℕ) → length (push_all store size t bs) ≡ length store
length-push_all store size t [] = refl
length-push_all store size t (b ∷ bs) =
    length-push_all (set store t b) size (adv size t 1) bs ∙ length-set store t b

pub slice-push_all :
    (store : List ℕ) (size h n t : ℕ) (bs : List ℕ)
    → size ≤ length store
    → h < size
    → n + length bs ≤ size
    → t ≡ adv size h n
    → slice (push_all store size t bs) size h (n + length bs) ≡ slice store size h n ++ bs
slice-push_all store size h n t [] fits lt le e =
    let z : n + 0 ≡ n = omega arith in rw z (sym (append-nil (slice store size h n)))
slice-push_all store size h n t (b ∷ bs) fits lt le e =
    let long : n + suc (length bs) ≡ suc n + length bs = omega arith in
    let there : adv size t 1 ≡ adv size h (suc n) = ground arith in
    rw long (
      slice-push_all (set store t b) size h (suc n) (adv size t 1) bs
        (rw (length-set store t b) fits) lt (omega arith) there)
    ∙ (ap (λ l. l ++ bs) (ring-set_self 0 store size h n b t fits lt (omega arith) e)
        ∙ append_assoc (slice store size h n) (b ∷ []) bs)

copy_in-push_all :
    (store : List ℕ) (size t : ℕ) (bs : List ℕ)
    → t + length bs ≤ size
    → copy_in store t bs ≡ push_all store size t bs
unfolding copy_in
copy_in-push_all store size t [] le = refl
copy_in-push_all store size t (b ∷ []) le = refl
copy_in-push_all store size t (b ∷ c ∷ bs) le =
    let here : adv size t 1 ≡ t + 1 = ground arith in
    rw here (copy_in-push_all (set store t b) size (t + 1) (c ∷ bs) (omega arith))

push_all-append :
    (store : List ℕ) (size t : ℕ) (xs ys : List ℕ)
    → t < size
    → length xs ≤ size
    → push_all store size t (xs ++ ys)
      ≡ push_all (push_all store size t xs) size (adv size t (length xs)) ys
push_all-append store size t [] ys lt le = rw (adv_zero size t lt) refl
push_all-append store size t (x ∷ xs) ys lt le = rw (← adv-adv size t (length xs) lt le) (
    push_all-append (set store t x) size (adv size t 1) xs ys (adv_in size t 1 lt (omega arith))
      (omega arith))

-- What is put in one or two copies goes in byte after byte.
pub copies-push_all :
    (store : List ℕ) (size t n : ℕ) (left : List ℕ)
    → t < size
    → n ≤ size
    → n ≤ length left
    → let first = at_most (size - t) n in
      (if ltb first n
        then copy_in (copy_in store t (take first left)) 0 (take (n - first) (drop first left))
        else copy_in store t (take first left))
      ≡ push_all store size t (take n left)
copies-push_all store size t n left lt le enough = elim (Bool-cases (ltb (size - t) n)) [
  | inr short ↦ ground (arith, copy_in-push_all store size t (take n left), length-take n left)
  | inl long ↦
      let xs = take (size - t) left in
      let ys = take (n - (size - t)) (drop (size - t) left) in
      let whole : take n left ≡ xs ++ ys =
        ap (λ k. take k left) (ground arith) ∙ take-add (size - t) (n - (size - t)) left in
      ground (
        arith,
        whole,
        length-take (size - t) left,
        length-take (n - (size - t)) (drop (size - t) left),
        copy_in-push_all store size t xs,
        copy_in-push_all (push_all store size t xs) size 0 ys,
        push_all-append store size t xs ys,
      )
]
