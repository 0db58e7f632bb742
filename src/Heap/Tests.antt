-- ===== src/Heap/Tests.antt =====
-- heap.c: a concrete heap.
use rv.Prelude.{◌≡◌, refl, true, false, some, List, [], ◌∷◌, arith}
use rv.Heap.{Block, alloc_from, alloc, free}
use rv.Heap.Tiled.{tiles, separated, in_use_of, in_use_but, free-whole, alloc-whole, alloc-wraps}

-- A region of 1024 bytes at 4096, with one block in use.
abbrev heap : List Block
heap =
    record { addr = 4096; size = 104; in_use = true }
    ∷ record { addr = 4216; size = 888; in_use = false }
    ∷ []

abbrev heap_with : List Block
heap_with =
    record { addr = 4096; size = 104; in_use = true }
    ∷ record { addr = 4216; size = 56; in_use = true }
    ∷ record { addr = 4288; size = 816; in_use = false }
    ∷ []

free-whole_example :
    (cs : List Block) × (free 4112 heap ≡ some cs)
    × (tiles 4096 5120 cs ≡ true)
    × (separated cs ≡ true)
    × (in_use_of cs ≡ in_use_but 4112 heap)
free-whole_example = free-whole 4096 5120 4112 heap (omega arith) refl refl refl

alloc-whole_example : (tiles 4096 5120 heap_with ≡ true) × (separated heap_with ≡ true)
unfolding alloc alloc_from
alloc-whole_example = alloc-whole 4096 5120 50 4232 heap heap_with refl refl refl

alloc-wraps_example : alloc 0xffff_ffff heap ≡ alloc 16 heap
alloc-wraps_example = alloc-wraps 0xffff_ffff heap (omega arith) (omega arith)
