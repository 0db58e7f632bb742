-- ===== src/Heap.antt =====
-- components/rv9_kernel/src/heap.c: the kernel's allocator.
-- The chain of blocks is a list in the order of the chain, so that `prev` and `next` are its
-- neighbours; an address is a number. The descriptor of a block takes 16 bytes.
pub mod Tiled
mod Tests
use rv.Prelude.{
  ℕ, ◌+◌, ◌-◌, ◌*◌, ◌/◌, ◌%◌, ◌^◌, Bool, true, false, not, ◌&&◌, ◌||◌, Option, none, some, List, [],
  ◌∷◌, ltb, leb, ◌==◌, if◌then◌else◌,
}

-- `block_t`; `addr` is where it lies.
pub record Block : Type 0 where
  pub addr : ℕ
  pub size : ℕ
  pub in_use : Bool

abbrev pub align_up : ℕ → ℕ
align_up n = (n + 7) % 2 ^ 32 / 8 * 8

-- MIN_PAYLOAD and sizeof(block_t).
abbrev pub min_payload : ℕ
min_payload = 16

abbrev pub block_size : ℕ
block_size = 16

-- The chain and `s_total`.
pub heap_init : ℕ → ℕ → List Block × ℕ
heap_init base bytes =
    let start = align_up base in
    let lost = start - base in
    if base == 0 || ltb bytes (block_size + min_payload)
    then ([], 0)
    else if leb bytes lost
    then ([], 0)
    else (
      record { addr = start; size = bytes - lost - block_size; in_use = false } ∷ [],
      bytes - lost,
    )

abbrev pub took : Block → Block
took b = record b { in_use = true }

-- The block split in two, and the first of them in use.
abbrev pub split : ℕ → Block → List Block → List Block
split want b bs =
    record b { size = want; in_use = true }
    ∷ record {
      addr = b.addr + block_size + want;
      size = b.size - want - block_size;
      in_use = false;
    }
    ∷ bs

abbrev pub onto : Block → Option (ℕ × List Block) → Option (ℕ × List Block)
onto b none = none
onto b (some (p, bs)) = some (p, b ∷ bs)

-- The loop of `rv9k_alloc`: the payload, and the chain.
pub alloc_from : ℕ → List Block → Option (ℕ × List Block)
alloc_from want [] = none
alloc_from want (b ∷ bs) =
    let next = onto b (alloc_from want bs) in
    if b.in_use
    then next
    else if ltb b.size want
    then next
    else if leb (block_size + min_payload) (b.size - want)
    then some (b.addr + block_size, split want b bs)
    else some (b.addr + block_size, took b ∷ bs)

abbrev pub wanted : ℕ → ℕ
wanted bytes = if ltb (align_up bytes) min_payload then min_payload else align_up bytes

pub alloc : ℕ → List Block → Option (ℕ × List Block)
alloc bytes bs = if bytes == 0 then none else alloc_from (wanted bytes) bs

-- `merge_with_next` of the first block of the chain.
pub merge_with_next : List Block → List Block
merge_with_next [] = []
merge_with_next (b ∷ []) = b ∷ []
merge_with_next (b ∷ n ∷ bs) =
    if n.in_use
    then b ∷ n ∷ bs
    else record b { size = (b.size + block_size + n.size) % 2 ^ 32 } ∷ bs

abbrev pub is_block_of : ℕ → Block → Bool
is_block_of p b = b.addr + block_size == p

-- Whether the first block of the chain is the one that is freed, and is in use.
abbrev pub frees_first : ℕ → List Block → Bool
frees_first p [] = false
frees_first p (b ∷ bs) = is_block_of p b && b.in_use

-- The flag and the two merges of `rv9k_free`, where `p` is the payload of a block of the chain; a block
-- that is free already is left alone.
pub free_payload : ℕ → List Block → List Block
free_payload p [] = []
free_payload p (b ∷ bs) =
    let rest = free_payload p bs in
    if is_block_of p b
    then (if b.in_use then merge_with_next (record b { in_use = false } ∷ bs) else b ∷ bs)
    else if frees_first p bs && not b.in_use
    then merge_with_next (b ∷ rest)
    else b ∷ rest

abbrev pub has_payload : ℕ → List Block → Bool
has_payload p [] = false
has_payload p (b ∷ bs) = is_block_of p b || has_payload p bs

-- `rv9k_free`; 0 is NULL. There is no test that `p` is the payload of a block: of any other address
-- the source takes the bytes before it for a descriptor, which is outside the model (none).
pub free : ℕ → List Block → Option (List Block)
free p bs = if p == 0 then some bs else if has_payload p bs then some (free_payload p bs) else none
