-- ===== src/Pub/Return.antt =====
-- pfm.c: a publication and a read after it.
use rv.Pub.Read.{Whole-bytes}
use rv.Pub.Coherence.{view, load_rest-view}
use rv.Pub.Stores.{IsTidy, InPhase, all_fit, run-Kept}
use rv.Prelude.{
  ℕ, zero, suc, ◌+◌, ◌-◌, ◌/◌, ◌%◌, ◌^◌, ◌≤◌, ◌<◌, ◌≡◌, refl, sym, ap, subst, ◌∙◌, Bool, true,
  false, Option, none, some, List, [], ◌∷◌, arith, ltb, ◌==◌, if◌then◌else◌, length, take,
  replicate, length-take, take_all,
}
use rv.Pub.{
  Cell, Publication, Writer, Snapshot, publishes, idle, copying, max_tries, head_size,
  write_admitted, store_at, store_next, run, Schedule, load_bytes, at_most, load_rest, try_read,
  read_tries, counted, pfm_read,
}

-- The stores of one call of `pfm_write`: `seq`, the bytes, the length, the stamp and `seq` again.
abbrev pub publishing : Publication → List (Option Publication)
publishing p = some p ∷ replicate (length p.bytes + 3) none

abbrev Done : Publication → Writer → Type 0
Done p w = (w.phase ≡ idle) × (w.last ≡ some p)

-- With all bytes in, three stores are left.
copied-Done :
    (p : Publication) (n : ℕ) (w : Writer)
    → n ≡ length p.bytes
    → w.phase ≡ copying p n
    → Done p (run (replicate 3 none) w)
unfolding run store_next store_at
copied-Done p n w all_in e =
    let full : ltb n (length p.bytes) ≡ false = ground (arith, all_in) in ground (arith, e, full)

copying-Done :
    (p : Publication) (k n : ℕ) (w : Writer)
    → n + k ≡ length p.bytes
    → w.phase ≡ copying p n
    → Done p (run (replicate (k + 3) none) w)
unfolding run store_next store_at
copying-Done p zero n w sum e = copied-Done p n w (omega (arith, sum)) e
copying-Done p (suc k) n w sum e =
    let longer : suc k + 3 ≡ suc (k + 3) = omega arith in
    let more : ltb n (length p.bytes) ≡ true = ground (arith, sum) in
    let next : (store_next none w).phase ≡ copying p (n + 1) = ground (arith, e, more) in
    let same = ap (λ m. run (replicate m none) w) longer in
    subst (Done p) (sym same)
      (copying-Done p k (n + 1) (store_next none w) (omega (arith, sum)) next)

-- While the writer rests, bytes are loaded from the cell as it is.
load_bytes-quiet :
    (sched : Schedule) (n j t : ℕ) (w : Writer)
    → ((t' : ℕ) → sched t' ≡ [])
    → (load_bytes sched n j t w).2 ≡ w
unfolding load_bytes run
load_bytes-quiet sched zero j t w quiet = refl
load_bytes-quiet sched (suc n) j t w quiet =
    ap (λ l. (load_bytes sched n (j + 1) (t + 1) (run l w)).2) (quiet t)
    ∙ load_bytes-quiet sched n (j + 1) (t + 1) w quiet

publishing-Done : (p : Publication) (w : Writer) → w.phase ≡ idle → Done p (run (publishing p) w)
unfolding run store_next store_at
publishing-Done p w e =
    copying-Done p (length p.bytes) 0 (store_next (some p) w) (omega arith) (ground (arith, e))

-- A read while the writer rests is done at the first try.
load_rest-quiet :
    (sched : Schedule) (room t : ℕ) (w : Writer)
    → ((t' : ℕ) → sched t' ≡ [])
    → w.phase ≡ idle
    → IsTidy w
    → (load_rest sched room t w).0 ≡ some (view room w.cell)
unfolding load_rest run
load_rest-quiet sched room t w quiet e v =
    let w1 = run (sched t) w in
    let w2 = run (sched (t + 1)) w1 in
    let loads = load_bytes sched (at_most room w1.cell.len) 0 (t + 2) w2 in
    let w4 = run (sched loads.1) loads.2 in
    let seen : Snapshot = record {
      seq = w.cell.seq / 2;
      len = w1.cell.len;
      stamp = w2.cell.stamp_us;
      bytes = loads.0;
    } in
    let e1 : w1 ≡ w = ap (λ l. run l w) (quiet t) in
    let e2 : w2 ≡ w = ap (λ l. run l w1) (quiet (t + 1)) ∙ e1 in
    let e3 : loads.2 ≡ w =
      load_bytes-quiet sched (at_most room w1.cell.len) 0 (t + 2) w2 quiet ∙ e2 in
    let e4 : w4 ≡ w = ap (λ l. run l loads.2) (quiet loads.1) ∙ e3 in
    let same : (w4.cell.seq == w.cell.seq) ≡ true = ground (arith, ap (λ x. x.cell.seq) e4) in
    let got : (load_rest sched room t w).0 ≡ some seen = ground (arith, same) in
    let few : (load_rest sched room t w).2.stores < w.stores + 2 ^ 32 =
      omega (arith, ap (λ x. x.stores) e4) in
    got ∙ ap some (load_rest-view sched room t w seen e v got few)

try_read-quiet :
    (sched : Schedule) (room t : ℕ) (w : Writer)
    → ((t' : ℕ) → sched t' ≡ [])
    → w.phase ≡ idle
    → IsTidy w
    → (try_read sched room t w).0 ≡ some (view room w.cell)
unfolding try_read run InPhase
try_read-quiet sched room t w quiet e v =
    let (even, has) = subst (λ ph. InPhase ph w) e v.in_phase in
    let not_odd : (w.cell.seq % 2 == 1) ≡ false = ground (arith, even, v.counts) in
    let at_once : (try_read sched room t w).0 ≡ (load_rest sched room (t + 1) w).0 =
      ap
        (λ l.
          (if (run l w).cell.seq % 2 == 1
            then (none, t + 1, run l w)
            else load_rest sched room (t + 1) (run l w)).0)
        (quiet t)
      ∙ ground (arith, not_odd) in
    at_once ∙ load_rest-quiet sched room (t + 1) w quiet e v

read_tries-first :
    (sched : Schedule) (room tries t : ℕ) (w : Writer) (s : Snapshot)
    → (try_read sched room t w).0 ≡ some s
    → (read_tries sched room (suc tries) t w).0 ≡ some s
unfolding read_tries
read_tries-first sched room tries t w s h = ground (arith, h)

counted-snapshot : (r : Option Snapshot × Writer) → (counted r).0 ≡ r.0
counted-snapshot (none, w) = refl
counted-snapshot (some s, w) = refl

all_fit-none : (room n : ℕ) → all_fit room (replicate n none) ≡ true
all_fit-none room zero = refl
all_fit-none room (suc n) = all_fit-none room n

publishing-pfm_read :
    (p : Publication) (sched : Schedule) (room : ℕ) (w : Writer)
    → w.phase ≡ idle
    → IsTidy w
    → length p.bytes ≤ length w.cell.value
    → length p.bytes ≤ room
    → ((t : ℕ) → sched t ≡ [])
    → (s : Snapshot) × ((pfm_read sched room (run (publishing p) w)).0 ≡ some s)
      × (s.len ≡ length p.bytes)
      × (s.stamp ≡ p.stamp)
      × (s.bytes ≡ p.bytes)
unfolding pfm_read InPhase
publishing-pfm_read p sched room w e v fits enough quiet =
    let w1 = run (publishing p) w in
    let (still, finished) = publishing-Done p w e in
    let fit : all_fit (length w.cell.value) (publishing p) ≡ true =
      ground (arith, all_fit-none (length w.cell.value) (length p.bytes + 3)) in
    let (tidy, same) = run-Kept (publishing p) w fit v in
    let (even, has) = subst (λ ph. InPhase ph w1) still tidy.in_phase in
    let whole = has p finished in
    let small : at_most room (length p.bytes) ≡ length p.bytes = ground arith in
    (
      view room w1.cell,
      counted-snapshot (read_tries sched room max_tries 0 w1)
          ∙ read_tries-first sched room 7 0 w1 (view room w1.cell)
              (try_read-quiet sched room 0 w1 quiet still tidy),
      whole.size,
      whole.moment,
      Whole-bytes p w1.cell room whole
          ∙ ap (λ n. take n p.bytes) small
          ∙ take_all (length p.bytes) p.bytes (omega arith),
    )

admitted-fits :
    (is_writer : Bool) (len head_len head_stamp : ℕ) (payload : List ℕ) (now : ℕ) (c : Cell)
    (p : Publication)
    → write_admitted is_writer len head_len head_stamp payload now c ≡ publishes p
    → length p.bytes ≤ c.cap
unfolding write_admitted
admitted-fits is_writer len head_len head_stamp payload now c p e =
    let vlen = if head_len == 0 then (len - head_size) % 2 ^ 32 else head_len in
    ground (arith, length-take vlen payload, e)

-- What a call of `pfm_write` publishes is what a read gives that begins when its stores are done and
-- runs while the writer rests: the read succeeds, with the length and the stamp of the publication, and
-- with its bytes, where the buffer has room for them. The call is one whose arguments are
-- admitted, made between publications, on a cell that has the bytes it says it has.
pub pfm_write-pfm_read :
    (is_writer : Bool) (len head_len head_stamp : ℕ) (payload : List ℕ) (now : ℕ) (p : Publication)
    (sched : Schedule) (room : ℕ) (w : Writer)
    → write_admitted is_writer len head_len head_stamp payload now w.cell ≡ publishes p
    → w.cell.cap ≤ length w.cell.value
    → w.phase ≡ idle
    → IsTidy w
    → length p.bytes ≤ room
    → ((t : ℕ) → sched t ≡ [])
    → (s : Snapshot) × ((pfm_read sched room (run (publishing p) w)).0 ≡ some s)
      × (s.len ≡ length p.bytes)
      × (s.stamp ≡ p.stamp)
      × (s.bytes ≡ p.bytes)
pfm_write-pfm_read is_writer len head_len head_stamp payload now p sched room w e big still v enough
      quiet =
    publishing-pfm_read p sched room w still v
      (omega (arith, admitted-fits is_writer len head_len head_stamp payload now w.cell p e)) enough
      quiet
