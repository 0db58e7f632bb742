-- ===== src/Pub/Stores.antt =====
-- pfm.c: what the stores of a publication leave in the cell.
use rv.Prelude.{
  ℕ, zero, suc, ◌+◌, ◌%◌, ◌^◌, ◌≤◌, ◌<◌, ◌≡◌, refl, sym, ap, subst, ◌∙◌, inl, inr, Bool, true,
  Option, none, some, List, [], ◌∷◌, ◌++◌, arith, ltb, leb, Bool-cases, length, get_or, set, take,
  all, length-set, take_all,
}
use rv.Pub.{
  Cell, Publication, Writer, Phase, idle, copying, sized, stamped, next_seq, set_byte, store_at,
  store_next, run,
}

-- The cell has the first `n` bytes of a publication that it has room for, or all of it.
pub record HasBytes (p : Publication) (n : ℕ) (c : Cell) : Type 0 where
  pub room : length p.bytes ≤ length c.value
  pub so_far : n ≤ length p.bytes
  pub copied : take n c.value ≡ take n p.bytes

pub record Whole (p : Publication) (c : Cell) : Type 0 where
  pub all_bytes : take (length p.bytes) c.value ≡ p.bytes
  pub size : c.len ≡ length p.bytes
  pub moment : c.stamp_us ≡ p.stamp

-- What a phase says of the parity of `stores` and of the cell.
unfoldable pub InPhase : Phase → Writer → Type 0
InPhase idle w = (w.stores % 2 ≡ 0) × ((p : Publication) → w.last ≡ some p → Whole p w.cell)
InPhase (copying p n) w = (w.stores % 2 ≡ 1) × HasBytes p n w.cell
InPhase (sized p) w =
    (w.stores % 2 ≡ 1) × HasBytes p (length p.bytes) w.cell × (w.cell.len ≡ length p.bytes)
InPhase (stamped p) w = (w.stores % 2 ≡ 1) × Whole p w.cell

-- The publications fit in the cell.
abbrev pub fits_in : ℕ → Option Publication → Bool
fits_in room none = true
fits_in room (some p) = leb (length p.bytes) room

pub record IsTidy (w : Writer) : Type 0 where
  pub counts : w.cell.seq ≡ w.stores % 2 ^ 32
  pub in_phase : InPhase w.phase w

take-set : (xs : List ℕ) (n b : ℕ) → n < length xs → take (suc n) (set xs n b) ≡ take n xs ++ b ∷ []
take-set [] n b h = absurd (omega arith)
take-set (x ∷ xs) zero b h = refl
take-set (x ∷ xs) (suc n) b h = ap (◌∷◌ x) (take-set xs n b (omega arith))

take-snoc :
    (xs : List ℕ) (n : ℕ) → n < length xs → take (suc n) xs ≡ take n xs ++ get_or xs n 0 ∷ []
take-snoc [] n h = absurd (omega arith)
take-snoc (x ∷ xs) zero h = refl
take-snoc (x ∷ xs) (suc n) h = ap (◌∷◌ x) (take-snoc xs n (omega arith))

copy-HasBytes :
    (p : Publication) (n : ℕ) (c : Cell)
    → n < length p.bytes
    → HasBytes p n c
    → HasBytes p (n + 1) (set_byte n (get_or p.bytes n 0) c)
copy-HasBytes p n c lt h =
    let one : n + 1 ≡ suc n = omega arith in
    record {
      room = rw (length-set c.value n (get_or p.bytes n 0)) h.room;
      so_far = omega arith;
      copied = rw one (
          take-set c.value n (get_or p.bytes n 0) (omega (arith, h.room))
          ∙ ap (λ l. l ++ get_or p.bytes n 0 ∷ []) h.copied
          ∙ sym (take-snoc p.bytes n lt));
    }

-- What a store keeps: the writer is tidy, and the cell has its size.
abbrev pub Kept : Writer → Writer → Type 0
Kept w w' = IsTidy w' × (length w'.cell.value ≡ length w.cell.value)

store_at-Kept :
    (ph : Phase) (next : Option Publication) (w : Writer)
    → fits_in (length w.cell.value) next ≡ true
    → w.phase ≡ ph
    → w.cell.seq ≡ w.stores % 2 ^ 32
    → InPhase ph w
    → Kept w (store_at ph next w)
unfolding store_at InPhase
store_at-Kept idle none w fits e counts (even, whole) =
    (record { counts = counts; in_phase = rw e (even, whole) }, refl)
store_at-Kept idle (some p) w fits e counts (even, whole) = (
  record {
    counts = omega (arith, counts);
    in_phase = (
      omega (arith, even),
      record { room = ground (arith, fits); so_far = ground arith; copied = refl },
    );
  },
  refl,
)
store_at-Kept (copying p n) next w fits e counts (odd, has) =
    elim (Bool-cases (ltb n (length p.bytes))) [
      | inl more ↦ rw more (
        record {
          counts = counts;
          in_phase = (odd, copy-HasBytes p n w.cell (ground (arith, more)) has);
        },
        length-set w.cell.value n (get_or p.bytes n 0),
      )
      | inr done ↦
          let end : n ≡ length p.bytes = ground (arith, done, has.so_far) in
          rw done (
            record {
              counts = counts;
              in_phase = (
                odd,
                record {
                  room = has.room;
                  so_far = omega arith;
                  copied = subst (λ m. take m w.cell.value ≡ take m p.bytes) end has.copied;
                },
                refl,
              );
            },
            refl,
          )
    ]
store_at-Kept (sized p) next w fits e counts (odd, has, size) = (
  record {
    counts = counts;
    in_phase = (
      odd,
      record {
        all_bytes = has.copied ∙ take_all (length p.bytes) p.bytes (omega arith);
        size = size;
        moment = refl;
      },
    );
  },
  refl,
)
store_at-Kept (stamped p) next w fits e counts (odd, whole) = (
  record {
    counts = omega (arith, counts);
    in_phase = (
      omega (arith, odd),
      λ q h.
          (let same : p ≡ q = cc in
            subst (λ r. Whole r (next_seq w.cell)) same
              (record { all_bytes = whole.all_bytes; size = whole.size; moment = whole.moment })),
    );
  },
  refl,
)

pub store_next-Kept :
    (next : Option Publication) (w : Writer)
    → fits_in (length w.cell.value) next ≡ true
    → IsTidy w
    → Kept w (store_next next w)
unfolding store_next
store_next-Kept next w fits v = store_at-Kept w.phase next w fits refl v.counts v.in_phase

-- Every publication that a run begins fits in the cell.
abbrev pub all_fit : ℕ → List (Option Publication) → Bool
all_fit room nexts = all (fits_in room) nexts

pub run-Kept :
    (nexts : List (Option Publication)) (w : Writer)
    → all_fit (length w.cell.value) nexts ≡ true
    → IsTidy w
    → Kept w (run nexts w)
unfolding run
run-Kept [] w fits v = (v, refl)
run-Kept (next ∷ nexts) w fits v =
    let (v', same) = store_next-Kept next w (ground (arith, fits)) v in
    let fits' : all_fit (length (store_next next w).cell.value) nexts ≡ true =
      rw same (ground (arith, fits)) in
    let (v'', same') = run-Kept nexts (store_next next w) fits' v' in (v'', same' ∙ same)
