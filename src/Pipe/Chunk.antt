-- ===== src/Pipe/Chunk.antt =====
-- pipefm.c: what one look of a read or a write does to the bytes in the pipe.
use rv.Prelude.{
  ℕ, zero, suc, ◌+◌, ◌-◌, ◌≤◌, ◌<◌, min, ◌≡◌, refl, sym, ap, ap₂, ◌∙◌, List, ◌∷◌, ◌++◌, arith, ltb,
  if◌then◌else◌, length, get_or, take, drop, length-take, adv, adv_in, adv-adv, adv_zero, mod_adv,
  adv_sub, adv_add,
}
use rv.Pipe.{Pipe, at_most, take_n, take_bytes, put_n, put_bytes}
use rv.Pipe.Ring.{
  IsValid, slice, contents, copies-slice, push_all, length-push_all, slice-push_all,
  copies-push_all,
}

take-slice :
    (store : List ℕ) (size h n m : ℕ) → n ≤ m → take n (slice store size h m) ≡ slice store size h n
take-slice store size h zero m le = refl
take-slice store size h (suc n) zero le = absurd (omega arith)
take-slice store size h (suc n) (suc m) le =
    ap (◌∷◌ (get_or store h 0)) (take-slice store size (adv size h 1) n m (omega arith))

drop-slice :
    (store : List ℕ) (size h n m : ℕ)
    → h < size
    → n ≤ m
    → m ≤ size
    → drop n (slice store size h m) ≡ slice store size (adv size h n) (m - n)
drop-slice store size h zero m lt le top =
    ap₂ (λ a k. slice store size a k) (sym (adv_zero size h lt)) (omega arith)
drop-slice store size h (suc n) zero lt le top = absurd (omega arith)
drop-slice store size h (suc n) (suc m) lt le top =
    drop-slice store size (adv size h 1) n m (adv_in size h 1 lt (omega arith)) (omega arith)
      (omega arith)
    ∙ ap₂ (λ a k. slice store size a k) (adv-adv size h n lt (omega arith)) (omega arith)

take_n_lem :
    (p : Pipe) (n : ℕ)
    → IsValid p
    → n ≤ p.count
    → let (bytes, p') = take_n p n in
      (bytes ≡ take n (contents p)) × (contents p' ≡ drop n (contents p)) × IsValid p'
unfolding take_n
take_n_lem p n v le =
    let on = mod_adv p.capacity p.head n v.head_in (omega arith) v.small in
    (
      copies-slice p.store p.capacity p.head n v.head_in (omega arith)
          ∙ sym (take-slice p.store p.capacity p.head n p.count le),
      rw (on, drop-slice p.store p.capacity p.head n p.count v.head_in le v.count_in) refl,
      record {
        capacity_pos = v.capacity_pos;
        small = v.small;
        fits = v.fits;
        head_in = rw on (adv_in p.capacity p.head n v.head_in (omega arith));
        count_in = omega arith;
        tail_at =
            v.tail_at ∙ rw on (sym (adv_sub p.capacity p.head n p.count v.head_in le v.count_in));
      },
    )

-- The bytes that `pipe_read` takes are the oldest ones, as many as are there and wanted; the rest
-- stay in order, and the pipe stays valid.
pub take_bytes_lem :
    (p : Pipe) (len : ℕ)
    → IsValid p
    → let n = min p.count len in
      let (bytes, p') = take_bytes p len in
      (bytes ≡ take n (contents p)) × (contents p' ≡ drop n (contents p)) × IsValid p'
unfolding take_bytes
take_bytes_lem p len v =
    let e : (if ltb p.count len then p.count else len) ≡ min p.count len = ground arith in
    rw e (take_n_lem p (min p.count len) v (omega arith))

put_n_lem :
    (p : Pipe) (left : List ℕ) (n : ℕ)
    → IsValid p
    → n ≤ length left
    → p.count + n ≤ p.capacity
    → (contents (put_n p left n) ≡ contents p ++ take n left) × IsValid (put_n p left n)
unfolding put_n
put_n_lem p left n v le room =
    let filled = copies-push_all p.store p.capacity p.tail n left tail_in (omega arith) le in
    let count : length (take n left) ≡ n = length-take n left ∙ omega arith in
    let on = mod_adv p.capacity p.tail n tail_in (omega arith) v.small in
    (
      rw filled (
          ap (slice (push_all p.store p.capacity p.tail (take n left)) p.capacity p.head)
            (rw count refl)
          ∙ slice-push_all p.store p.capacity p.head p.count p.tail (take n left) v.fits v.head_in
              (rw count room) v.tail_at),
      record {
        capacity_pos = v.capacity_pos;
        small = v.small;
        fits = rw (filled, length-push_all p.store p.capacity p.tail (take n left)) v.fits;
        head_in = v.head_in;
        count_in = room;
        tail_at =
            on
            ∙ (ap (λ t. adv p.capacity t n) v.tail_at
                ∙ adv_add p.capacity p.head p.count n v.head_in room);
      },
    )
  where
    tail_in : p.tail < p.capacity
    tail_in = rw v.tail_at (adv_in p.capacity p.head p.count v.head_in v.count_in)

-- The bytes that `pipe_write` puts are the next ones, as many as are left and fit; they follow what
-- was there, and the pipe stays valid.
pub put_bytes_lem :
    (p : Pipe) (left : List ℕ)
    → IsValid p
    → let (n, p') = put_bytes p left in
      (n ≡ min (length left) (p.capacity - p.count))
      × (contents p' ≡ contents p ++ take n left)
      × IsValid p'
unfolding put_bytes
put_bytes_lem p left v =
    let e : at_most (length left) (p.capacity - p.count)
        ≡ min (length left) (p.capacity - p.count) =
      ground arith in
    let (same, valid) =
      put_n_lem p left (min (length left) (p.capacity - p.count)) v (omega arith) (omega arith) in
    rw e (refl, same, valid)
