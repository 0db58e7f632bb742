-- ===== src/Pub/Read.antt =====
-- pfm.c: the tries of `pfm_read` and what the writer does meanwhile.
use rv.Pub.Coherence.{bytes_from, bytes_from-take, view, load_rest-view}
use rv.Prelude.{
  ℕ, zero, suc, ◌+◌, ◌/◌, ◌%◌, ◌^◌, ◌≤◌, ◌<◌, ◌≡◌, refl, sym, ap, subst, ◌∙◌, inl, inr, true, false,
  Option, none, some, List, [], ◌∷◌, arith, ◌==◌, Bool-cases, Option-cases, length, take,
  length-take,
}
use rv.Pub.{
  Cell, Publication, Writer, Snapshot, Phase, idle, copying, sized, stamped, max_tries, run,
  Schedule, at_most, load_rest, try_read, read_tries, counted, pfm_read,
}
use rv.Pub.Moments.{
  run_until, run_until-next, run_until-Kept, run_until-grows, load_rest-IsAt, try_read-IsAt,
}
use rv.Pub.Stores.{Whole, IsTidy, InPhase, all_fit}

-- An even `seq` is found between publications only.
even-idle : (w : Writer) → IsTidy w → (w.cell.seq % 2 == 1) ≡ false → w.phase ≡ idle
unfolding InPhase
even-idle w v even = go w.phase refl v.in_phase
  where
    go : (ph : Phase) → w.phase ≡ ph → InPhase ph w → w.phase ≡ idle
    go idle e h = e
    go (copying p n) e (odd, h) = absurd (ground (arith, odd, even, v.counts))
    go (sized p) e (odd, h, m) = absurd (ground (arith, odd, even, v.counts))
    go (stamped p) e (odd, h) = absurd (ground (arith, odd, even, v.counts))

module _ (sched : Schedule) (w : Writer) where
  -- What a read that ends with the writer `v` gives: the view of the cell at one of its loads, between
  -- publications.
  abbrev pub Viewed : ℕ → Writer → Snapshot → Type 0
  Viewed room v s =
      (n : ℕ) × (m : ℕ) × (0 < n)
      × (n ≤ m)
      × (v ≡ run_until sched m w)
      × ((run_until sched n w).phase ≡ idle)
      × (s ≡ view room (run_until sched n w).cell)

  try_read-Viewed :
      (room t : ℕ) (v : Writer) (s : Snapshot)
      → IsTidy w
      → ((t : ℕ) → all_fit (length w.cell.value) (sched t) ≡ true)
      → v ≡ run_until sched t w
      → (try_read sched room t v).0 ≡ some s
      → (try_read sched room t v).2.stores < w.stores + 2 ^ 32
      → Viewed room (try_read sched room t v).2 s
  unfolding try_read
  try_read-Viewed room t v s tidy fits e got few =
      let w' = run (sched t) v in
      let e' : w' ≡ run_until sched (t + 1) w = run_until-next sched w t v e in
      let tidy' : IsTidy w' = subst IsTidy (sym e') (run_until-Kept sched w tidy fits (t + 1)).0 in
      let grows : w.stores ≤ w'.stores =
        subst (λ x. w.stores ≤ x.stores) (sym e') (run_until-grows sched w (t + 1)) in
      elim (Bool-cases (w'.cell.seq % 2 == 1)) [
        | inl odd ↦ absurd (ground (arith, odd, got))
        | inr even ↦
            let still = even-idle w' tidy' even in
            let loads = load_rest sched room (t + 1) w' in
            let (at, later) = load_rest-IsAt sched w room (t + 1) w' e' in
            let got' : loads.0 ≡ some s = ground (arith, got, even) in
            let few' : loads.2.stores < w'.stores + 2 ^ 32 = ground (arith, few, even, grows) in
            (
              t + 1,
              loads.1,
              omega arith,
              later,
              rw even at,
              subst (λ x. x.phase ≡ idle) e' still,
              load_rest-view sched room (t + 1) w' s still tidy' got' few'
                  ∙ ap (λ x. view room x.cell) e',
            )
      ]

  read_tries-Viewed :
      (room tries t : ℕ) (v : Writer) (s : Snapshot)
      → IsTidy w
      → ((t : ℕ) → all_fit (length w.cell.value) (sched t) ≡ true)
      → v ≡ run_until sched t w
      → (read_tries sched room tries t v).0 ≡ some s
      → (read_tries sched room tries t v).1.stores < w.stores + 2 ^ 32
      → Viewed room (read_tries sched room tries t v).1 s
  unfolding read_tries
  read_tries-Viewed room zero t v s tidy fits e got few = absurd (cc)
  read_tries-Viewed room (suc tries) t v s tidy fits e got few =
      let r = try_read sched room t v in
      elim (Option-cases r.0) [
        | inl nothing ↦
            let again = read_tries sched room tries r.1 r.2 in
            let got' : again.0 ≡ some s = ground (arith, got, nothing) in
            let few' : again.1.stores < w.stores + 2 ^ 32 = ground (arith, few, nothing) in
            let ends : (read_tries sched room (suc tries) t v).1 ≡ again.1 =
              ground (arith, nothing) in
            subst (λ x. Viewed room x s) (sym ends)
              (read_tries-Viewed room tries r.1 r.2 s tidy fits (try_read-IsAt sched w room t v e).0
                got' few')
        | inr (s', found) ↦
            let got' : r.0 ≡ some s = ground (arith, got, found) in
            let few' : r.2.stores < w.stores + 2 ^ 32 = ground (arith, few, found) in
            let ends : (read_tries sched room (suc tries) t v).1 ≡ r.2 = ground (arith, found) in
            subst (λ x. Viewed room x s) (sym ends)
              (try_read-Viewed room t v s tidy fits e got' few')
      ]

counted-some :
    (r : Option Snapshot × Writer) (s : Snapshot) → (counted r).0 ≡ some s → counted r ≡ r
counted-some (none, w) s h = absurd (cc)
counted-some (some s', w) s h = refl

take-take : (m n : ℕ) (xs : List ℕ) → m ≤ n → take m (take n xs) ≡ take m xs
take-take zero n xs h = refl
take-take (suc m) zero xs h = absurd (omega arith)
take-take (suc m) (suc n) [] h = refl
take-take (suc m) (suc n) (x ∷ xs) h = ap (◌∷◌ x) (take-take m n xs (omega arith))

-- The bytes that a reader sees of a whole publication.
pub Whole-bytes :
    (p : Publication) (c : Cell) (room : ℕ)
    → Whole p c
    → bytes_from (at_most room c.len) 0 c.value ≡ take (at_most room (length p.bytes)) p.bytes
Whole-bytes p c room h =
    let m = at_most room (length p.bytes) in
    let short : m ≤ length p.bytes = ground arith in
    let long : length p.bytes ≤ length c.value =
      omega (arith, ap length h.all_bytes, length-take (length p.bytes) c.value) in
    ap (λ n. bytes_from (at_most room n) 0 c.value) h.size
    ∙ bytes_from-take m c.value (omega (arith, short, long))
    ∙ sym (take-take m (length p.bytes) c.value short)
    ∙ ap (take m) h.all_bytes

-- A read that succeeds gives one publication, never parts of two, however the writer's stores fall
-- between its loads. One of the loads of the read, the one after the first `n` stretches of the
-- schedule, found the writer between publications, and the length, the stamp and the bytes are those
-- of the publication that was finished last before it, the bytes as many as fit in the reader's
-- buffer (if none has been finished since the model starts, this says nothing of them); the sequence
-- number is half of what `seq` was then. The read ends after `m` stretches, with `n` at most `m`.
-- The publications fit in the cell, and `seq` is stored fewer than 2 ^ 32 times during the read.
pub pfm_read-coherent :
    (sched : Schedule) (room : ℕ) (w : Writer) (s : Snapshot)
    → IsTidy w
    → ((t : ℕ) → all_fit (length w.cell.value) (sched t) ≡ true)
    → (pfm_read sched room w).0 ≡ some s
    → (pfm_read sched room w).1.stores < w.stores + 2 ^ 32
    → (n : ℕ) × (m : ℕ) × (0 < n)
      × (n ≤ m)
      × ((pfm_read sched room w).1 ≡ run_until sched m w)
      × ((run_until sched n w).phase ≡ idle)
      × (s.seq ≡ (run_until sched n w).stores % 2 ^ 32 / 2)
      × ((p : Publication)
          → (run_until sched n w).last ≡ some p
          → (s.len ≡ length p.bytes)
            × (s.stamp ≡ p.stamp)
            × (s.bytes ≡ take (at_most room (length p.bytes)) p.bytes))
unfolding pfm_read InPhase run_until
pfm_read-coherent sched room w s v fits got few =
    let r = read_tries sched room max_tries 0 w in
    let whole : counted r ≡ r = counted-some r s got in
    let got' : r.0 ≡ some s = ap (λ x. x.0) (sym whole) ∙ got in
    let few' : r.1.stores < w.stores + 2 ^ 32 =
      subst (λ x. x.1.stores < w.stores + 2 ^ 32) whole few in
    let (n, m, pos, before, ends, still, seen) =
      read_tries-Viewed sched w room max_tries 0 w s v fits refl got' few' in
    let w' = run_until sched n w in
    let tidy = (run_until-Kept sched w v fits n).0 in
    let (even, has) = subst (λ ph. InPhase ph w') still tidy.in_phase in
    (
      n,
      m,
      pos,
      before,
      ap (λ x. x.1) whole ∙ ends,
      still,
      ap (λ x. x.seq) seen ∙ ap (λ n. n / 2) tidy.counts,
      λ p e. (
        ap (λ x. x.len) seen ∙ (has p e).size,
        ap (λ x. x.stamp) seen ∙ (has p e).moment,
        ap (λ x. x.bytes) seen ∙ Whole-bytes p w'.cell room (has p e),
      ),
    )
