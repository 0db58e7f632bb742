-- ===== src/Heap/Tiled.antt =====
-- heap.c: the blocks, and the region that they tile.
use rv.Prelude.{
  ℕ, ◌+◌, ◌-◌, ◌%◌, ◌^◌, ◌≤◌, ◌<◌, ◌≡◌, refl, sym, inl, inr, Bool, true, false, not, ◌&&◌, ◌||◌,
  some, List, [], ◌∷◌, arith, ltb, leb, ◌==◌, if◌then◌else◌, Bool-cases, Option-cases,
}
use rv.Heap.{
  Block, min_payload, block_size, took, split, alloc_from, wanted, alloc, merge_with_next,
  is_block_of, frees_first, free_payload, has_payload, free,
}

-- The blocks lie one after the other from `start` to `end`.
abbrev pub tiles : ℕ → ℕ → List Block → Bool
tiles start end [] = start == end
tiles start end (b ∷ bs) = b.addr == start && tiles (start + block_size + b.size) end bs

abbrev pub first_in_use : List Block → Bool
first_in_use [] = true
first_in_use (b ∷ bs) = b.in_use

-- After a free block comes one that is in use, or none.
abbrev pub separated : List Block → Bool
separated [] = true
separated (b ∷ bs) = (b.in_use || first_in_use bs) && separated bs

alloc_from-first :
    (want p : ℕ) (bs cs : List Block)
    → first_in_use bs ≡ true
    → alloc_from want bs ≡ some (p, cs)
    → first_in_use cs ≡ true
unfolding alloc_from
alloc_from-first want p [] cs f h = absurd (cc)
alloc_from-first want p (b ∷ bs) cs f h = elim (Option-cases (alloc_from want bs)) [
  | inl e ↦ absurd (ground arith)
  | inr ((q, ds), e) ↦ let whole : cs ≡ b ∷ ds = ground arith in rw whole f
]

alloc_from-Tiled :
    (want start end p : ℕ) (bs cs : List Block)
    → tiles start end bs ≡ true
    → separated bs ≡ true
    → alloc_from want bs ≡ some (p, cs)
    → (tiles start end cs ≡ true) × (separated cs ≡ true)
unfolding alloc_from
alloc_from-Tiled want start end p [] cs t s h = absurd (cc)
alloc_from-Tiled want start end p (b ∷ bs) cs t s h =
    elim (Bool-cases (not b.in_use && not (ltb b.size want))) [
      | inl fits ↦ elim (Bool-cases (leb (block_size + min_payload) (b.size - want))) [
        | inl large ↦ let whole : cs ≡ split want b bs = ground arith in rw whole (ground arith)
        | inr small ↦ let whole : cs ≡ took b ∷ bs = ground arith in rw whole (ground arith)
      ]
      | inr not_here ↦ elim (Option-cases (alloc_from want bs)) [
        | inl e ↦ absurd (ground arith)
        | inr ((q, ds), e) ↦
            let whole : cs ≡ b ∷ ds = ground arith in
            let (a, k) =
              alloc_from-Tiled want (start + block_size + b.size) end q bs ds (ground arith)
                (ground arith) e in
            rw whole (ground (arith, a, k, alloc_from-first want q bs ds))
      ]
    ]

tiles-le : (start end : ℕ) (bs : List Block) → tiles start end bs ≡ true → start ≤ end
tiles-le start end [] t = ground (arith, t)
tiles-le start end (b ∷ bs) t = ground (arith, tiles-le (start + block_size + b.size) end bs)

merge-Tiled :
    (start end : ℕ) (bs : List Block)
    → end ≤ 2 ^ 32
    → tiles start end bs ≡ true
    → tiles start end (merge_with_next bs) ≡ true
unfolding merge_with_next
merge-Tiled start end [] small t = t
merge-Tiled start end (b ∷ []) small t = t
merge-Tiled start end (b ∷ n ∷ bs) small t = elim (Bool-cases n.in_use) [
  | inl used ↦ rw used t
  | inr unused ↦
      let inside : start + block_size + b.size + block_size + n.size ≤ end =
        tiles-le (start + block_size + b.size + block_size + n.size) end bs (ground arith) in
      let wide : (b.size + block_size + n.size) % 2 ^ 32 ≡ b.size + block_size + n.size =
        omega (arith, inside, small) in
      ground (arith, unused, wide)
]

free-Tiled :
    (start end p : ℕ) (bs : List Block)
    → end ≤ 2 ^ 32
    → tiles start end bs ≡ true
    → tiles start end (free_payload p bs) ≡ true
unfolding free_payload
free-Tiled start end p [] small t = t
free-Tiled start end p (b ∷ bs) small t =
    let rest = free-Tiled (start + block_size + b.size) end p bs small in
    ground (
      arith,
      rest,
      merge-Tiled start end (record b { in_use = false } ∷ bs) small,
      merge-Tiled start end (b ∷ free_payload p bs) small,
    )

free-first :
    (p : ℕ) (bs : List Block)
    → first_in_use bs ≡ true
    → frees_first p bs ≡ false
    → first_in_use (free_payload p bs) ≡ true
unfolding free_payload
free-first p [] f n = f
free-first p (b ∷ bs) f n = ground arith

merge-separated :
    (b : Block) (bs : List Block)
    → separated bs ≡ true
    → separated (merge_with_next (b ∷ bs)) ≡ true
unfolding merge_with_next
merge-separated b [] s = ground arith
merge-separated b (n ∷ bs) s = ground arith

free-separated :
    (p : ℕ) (bs : List Block) → separated bs ≡ true → separated (free_payload p bs) ≡ true
unfolding free_payload
free-separated p [] s = s
free-separated p (b ∷ bs) s =
    let rest = free-separated p bs (ground arith) in
    ground (
      arith,
      rest,
      free-first p bs,
      merge-separated (record b { in_use = false }) bs,
      merge-separated b (free_payload p bs),
    )

-- The blocks in use, and those of them but the one with the payload `p`.
abbrev pub in_use_of : List Block → List Block
in_use_of [] = []
in_use_of (b ∷ bs) = let rest = in_use_of bs in if b.in_use then b ∷ rest else rest

abbrev pub in_use_but : ℕ → List Block → List Block
in_use_but p [] = []
in_use_but p (b ∷ bs) =
    let rest = in_use_but p bs in if b.in_use && not (is_block_of p b) then b ∷ rest else rest

-- A payload below those of the region is of none of its blocks.
in_use_but-below :
    (p start end : ℕ) (bs : List Block)
    → tiles start end bs ≡ true
    → p < start + block_size
    → in_use_but p bs ≡ in_use_of bs
in_use_but-below p start end [] t low = refl
in_use_but-below p start end (b ∷ bs) t low =
    let rest =
      in_use_but-below p (start + block_size + b.size) end bs (ground (arith, t)) (omega arith) in
    let other : is_block_of p b ≡ false = ground (arith, t, low) in ground (arith, rest, other)

merge-in_use_of :
    (b : Block) (bs : List Block)
    → b.in_use ≡ false
    → in_use_of (merge_with_next (b ∷ bs)) ≡ in_use_of bs
unfolding merge_with_next
merge-in_use_of b [] unused = ground (arith, unused)
merge-in_use_of b (n ∷ bs) unused = ground (arith, unused)

free-in_use_of :
    (p start end : ℕ) (bs : List Block)
    → tiles start end bs ≡ true
    → in_use_of (free_payload p bs) ≡ in_use_but p bs
unfolding free_payload
free-in_use_of p start end [] t = refl
free-in_use_of p start end (b ∷ bs) t = elim (Bool-cases (is_block_of p b)) [
  | inl here ↦
      let below =
        in_use_but-below p (start + block_size + b.size) end bs (ground (arith, t))
          (ground (arith, here, t)) in
      ground (arith, here, below, merge-in_use_of (record b { in_use = false }) bs refl)
  | inr other ↦
      let rest = free-in_use_of p (start + block_size + b.size) end bs (ground (arith, t)) in
      ground (arith, other, rest, merge-in_use_of b (free_payload p bs))
]

-- Freeing a block, in use or free already, or NULL, is done and keeps the heap whole: where the blocks
-- tile the region from its start to its end, within 32 bits of addresses, and no free block is the
-- neighbour of another, this holds afterwards too, and the blocks in use afterwards are those that
-- were, in order and unchanged, but the one that is freed.
pub free-whole :
    (start end p : ℕ) (bs : List Block)
    → end ≤ 2 ^ 32
    → (p == 0 || has_payload p bs) ≡ true
    → tiles start end bs ≡ true
    → separated bs ≡ true
    → (cs : List Block) × (free p bs ≡ some cs)
      × (tiles start end cs ≡ true)
      × (separated cs ≡ true)
      × (in_use_of cs ≡ in_use_but p bs)
unfolding free
free-whole start end p bs small own t s = elim (Bool-cases (p == 0)) [
  | inl null ↦
      let below = in_use_but-below p start end bs t (ground (arith, null)) in
      (bs, ground (arith, null), t, s, sym below)
  | inr given ↦ (
    free_payload p bs,
    ground (arith, given, own),
    free-Tiled start end p bs small t,
    free-separated p bs s,
    free-in_use_of p start end bs t,
  )
]

-- An allocation that succeeds keeps the heap whole: where the blocks tile the region from its start
-- to its end, and no free block is the neighbour of another, this holds afterwards too.
pub alloc-whole :
    (start end bytes p : ℕ) (bs cs : List Block)
    → tiles start end bs ≡ true
    → separated bs ≡ true
    → alloc bytes bs ≡ some (p, cs)
    → (tiles start end cs ≡ true) × (separated cs ≡ true)
unfolding alloc
alloc-whole start end bytes p bs cs t s h =
    let asked : alloc_from (wanted bytes) bs ≡ some (p, cs) = ground arith in
    alloc_from-Tiled (wanted bytes) start end p bs cs t s asked

-- A request of the last seven sizes of 32 bits is rounded up past them to zero, and is served as
-- one of sixteen bytes.
pub alloc-wraps :
    (bytes : ℕ) (bs : List Block)
    → 2 ^ 32 - 7 ≤ bytes
    → bytes < 2 ^ 32
    → alloc bytes bs ≡ alloc 16 bs
unfolding alloc
alloc-wraps bytes bs high small = ground arith
