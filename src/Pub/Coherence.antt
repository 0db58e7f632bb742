-- ===== src/Pub/Coherence.antt =====
-- pfm.c: the loads of one try of `pfm_read` against the stores of the writer.
use rv.Prelude.{
  ℕ, zero, suc, ◌+◌, ◌/◌, ◌%◌, ◌^◌, ◌≤◌, ◌<◌, ◌≡◌, refl, sym, ap, ap₂, ◌∙◌, ◌⊎◌, inl, inr, true,
  Option, none, some, List, [], ◌∷◌, arith, ◌==◌, length, get_or, take,
}
use rv.Pub.{
  Cell, Publication, Writer, Snapshot, Phase, idle, copying, sized, stamped, store_at, store_next,
  run, Schedule, load_bytes, at_most, load_rest,
}
use rv.Pub.Stores.{IsTidy}

store_at-grows :
    (ph : Phase) (next : Option Publication) (w : Writer) → w.stores ≤ (store_at ph next w).stores
unfolding store_at
store_at-grows idle none w = omega arith
store_at-grows idle (some p) w = omega arith
store_at-grows (copying p n) next w = ground arith
store_at-grows (sized p) next w = omega arith
store_at-grows (stamped p) next w = omega arith

store_next-grows : (next : Option Publication) (w : Writer) → w.stores ≤ (store_next next w).stores
unfolding store_next
store_next-grows next w = store_at-grows w.phase next w

pub run-grows : (nexts : List (Option Publication)) (w : Writer) → w.stores ≤ (run nexts w).stores
unfolding run
run-grows [] w = omega arith
run-grows (next ∷ nexts) w =
    omega (arith, store_next-grows next w, run-grows nexts (store_next next w))

-- Between publications the first store that does something is one of `seq`.
idle-step :
    (next : Option Publication) (w : Writer)
    → w.phase ≡ idle
    → (store_next next w ≡ w) ⊎ ((store_next next w).stores ≡ w.stores + 1)
unfolding store_next store_at
idle-step none w e = inl (ground (arith, e))
idle-step (some p) w e = inr (ground (arith, e))

-- While `seq` is not stored, an idle writer does nothing.
run-still :
    (nexts : List (Option Publication)) (w : Writer)
    → w.phase ≡ idle
    → (run nexts w).stores ≡ w.stores
    → run nexts w ≡ w
unfolding run
run-still [] w e same = refl
run-still (next ∷ nexts) w e same = elim (idle-step next w e) [
  | inl nothing ↦
      ap (run nexts) nothing
      ∙ run-still nexts w e (ap (λ v. (run nexts v).stores) (sym nothing) ∙ same)
  | inr began ↦ absurd (omega (arith, run-grows nexts (store_next next w), began, same))
]

-- `seq` is how often it has been stored, in 32 bits.
abbrev Counts : Writer → Type 0
Counts w = w.cell.seq ≡ w.stores % 2 ^ 32

store_at-Counts :
    (ph : Phase) (next : Option Publication) (w : Writer) → Counts w → Counts (store_at ph next w)
unfolding store_at
store_at-Counts idle none w h = h
store_at-Counts idle (some p) w h = omega (arith, h)
store_at-Counts (copying p n) next w h = ground (arith, h)
store_at-Counts (sized p) next w h = h
store_at-Counts (stamped p) next w h = omega (arith, h)

run-Counts : (nexts : List (Option Publication)) (w : Writer) → Counts w → Counts (run nexts w)
unfolding run store_next
run-Counts [] w h = h
run-Counts (next ∷ nexts) w h =
    run-Counts nexts (store_next next w) (store_at-Counts w.phase next w h)

load_bytes-Counts :
    (sched : Schedule) (n j t : ℕ) (w : Writer) → Counts w → Counts (load_bytes sched n j t w).2
unfolding load_bytes
load_bytes-Counts sched zero j t w h = h
load_bytes-Counts sched (suc n) j t w h =
    load_bytes-Counts sched n (j + 1) (t + 1) (run (sched t) w) (run-Counts (sched t) w h)

pub load_bytes-grows :
    (sched : Schedule) (n j t : ℕ) (w : Writer) → w.stores ≤ (load_bytes sched n j t w).2.stores
unfolding load_bytes
load_bytes-grows sched zero j t w = omega arith
load_bytes-grows sched (suc n) j t w =
    omega (arith, run-grows (sched t) w, load_bytes-grows sched n (j + 1) (t + 1) (run (sched t) w))

-- The bytes from `j` on.
abbrev pub bytes_from : ℕ → ℕ → List ℕ → List ℕ
bytes_from zero j xs = []
bytes_from (suc n) j xs = get_or xs j 0 ∷ bytes_from n (j + 1) xs

load_bytes-still :
    (sched : Schedule) (n j t : ℕ) (w : Writer)
    → w.phase ≡ idle
    → (load_bytes sched n j t w).2.stores ≡ w.stores
    → ((load_bytes sched n j t w).0 ≡ bytes_from n j w.cell.value)
      × ((load_bytes sched n j t w).2 ≡ w)
unfolding load_bytes
load_bytes-still sched zero j t w e same = (refl, refl)
load_bytes-still sched (suc n) j t w e same =
    let first : run (sched t) w ≡ w = run-still (sched t) w e (
      omega (
        arith,
        same,
        run-grows (sched t) w,
        load_bytes-grows sched n (j + 1) (t + 1) (run (sched t) w),
      )) in
    let (bytes, stays) =
      load_bytes-still sched n (j + 1) (t + 1) w e
        (ap (λ v. (load_bytes sched n (j + 1) (t + 1) v).2.stores) (sym first) ∙ same) in
    (
      ap₂ ◌∷◌ (ap (λ v. get_or v.cell.value j 0) first)
          (ap (λ v. (load_bytes sched n (j + 1) (t + 1) v).0) first ∙ bytes),
      ap (λ v. (load_bytes sched n (j + 1) (t + 1) v).2) first ∙ stays,
    )

bytes_from-later : (n j x : ℕ) (xs : List ℕ) → bytes_from n (suc j) (x ∷ xs) ≡ bytes_from n j xs
bytes_from-later zero j x xs = refl
bytes_from-later (suc n) j x xs =
    let next : suc j + 1 ≡ suc (j + 1) = omega arith in
    ap (◌∷◌ (get_or xs j 0))
      (ap (λ m. bytes_from n m (x ∷ xs)) next ∙ bytes_from-later n (j + 1) x xs)

pub bytes_from-take : (n : ℕ) (xs : List ℕ) → n ≤ length xs → bytes_from n 0 xs ≡ take n xs
bytes_from-take zero xs h = refl
bytes_from-take (suc n) [] h = absurd (omega arith)
bytes_from-take (suc n) (x ∷ xs) h =
    ap (◌∷◌ x) (bytes_from-later n 0 x xs ∙ bytes_from-take n xs (omega arith))

-- What a reader with room for `room` bytes should see of an idle cell.
abbrev pub view : ℕ → Cell → Snapshot
view room c = record {
  seq = c.seq / 2;
  len = c.len;
  stamp = c.stamp_us;
  bytes = bytes_from (at_most room c.len) 0 c.value;
}

-- The loads after the first of `seq`, at an idle writer.
pub load_rest-view :
    (sched : Schedule) (room t : ℕ) (w : Writer) (s : Snapshot)
    → w.phase ≡ idle
    → IsTidy w
    → (load_rest sched room t w).0 ≡ some s
    → (load_rest sched room t w).2.stores < w.stores + 2 ^ 32
    → s ≡ view room w.cell
unfolding load_rest
load_rest-view sched room t w s e v got few =
    let w1 = run (sched t) w in
    let w2 = run (sched (t + 1)) w1 in
    let n = at_most room w1.cell.len in
    let loads = load_bytes sched n 0 (t + 2) w2 in
    let w4 = run (sched loads.1) loads.2 in
    let accepted : (w4.cell.seq == w.cell.seq) ≡ true = ground (arith, got) in
    let counts : Counts w4 = run-Counts (sched loads.1) loads.2 (
      load_bytes-Counts sched n 0 (t + 2) w2
        (run-Counts (sched (t + 1)) w1 (run-Counts (sched t) w v.counts))) in
    let g1 = run-grows (sched t) w in
    let g2 = run-grows (sched (t + 1)) w1 in
    let g3 = load_bytes-grows sched n 0 (t + 2) w2 in
    let g4 = run-grows (sched loads.1) loads.2 in
    let same : w4.stores ≡ w.stores =
      ground (arith, accepted, counts, v.counts, g1, g2, g3, g4, few) in
    let e1 : w1 ≡ w = run-still (sched t) w e (omega (arith, same, g1, g2, g3, g4)) in
    let s2 : w2.stores ≡ w1.stores = omega (arith, same, g1, g2, g3, g4) in
    let e2 : w2 ≡ w1 = run-still (sched (t + 1)) w1 (ap (λ v. v.phase) e1 ∙ e) s2 in
    let s3 : loads.2.stores ≡ w2.stores = omega (arith, same, g1, g2, g3, g4) in
    let (bytes, stays) =
      load_bytes-still sched n 0 (t + 2) w2 (ap (λ v. v.phase) (e2 ∙ e1) ∙ e) s3 in
    let bytes' : loads.0 ≡ bytes_from (at_most room w.cell.len) 0 w.cell.value =
      bytes
      ∙ ap (λ v. bytes_from (at_most room v.cell.len) 0 w2.cell.value) e1
      ∙ ap (λ v. bytes_from (at_most room w.cell.len) 0 v.cell.value) (e2 ∙ e1) in
    let seen : Snapshot = record {
      seq = w.cell.seq / 2;
      len = w1.cell.len;
      stamp = w2.cell.stamp_us;
      bytes = loads.0;
    } in
    let is_seen : s ≡ seen = ground (arith, got, accepted) in
    is_seen ∙ (λ i. record {
      seq = w.cell.seq / 2;
      len = (e1 i).cell.len;
      stamp = ((e2 ∙ e1) i).cell.stamp_us;
      bytes = bytes' i;
    })
