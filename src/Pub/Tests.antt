-- ===== src/Pub/Tests.antt =====
-- pfm.c: a cell that is written and read on concrete bytes.
use rv.Prelude.{
  ℕ, ◌/◌, ◌%◌, ◌^◌, ◌≤◌, ◌<◌, ◌≡◌, refl, true, none, some, [], ◌∷◌, arith, ltb, if◌then◌else◌,
  length, take,
}
use rv.Pub.{
  Cell, Publication, Writer, Snapshot, publishes, idle, write_admitted, store_at, store_next, run,
  Schedule, load_bytes, at_most, load_rest, try_read, read_tries, pfm_read,
}
use rv.Pub.Stores.{IsTidy, InPhase, all_fit}
use rv.Pub.Moments.{run_until}
use rv.Pub.Read.{pfm_read-coherent}
use rv.Pub.Return.{publishing, pfm_write-pfm_read}

abbrev fresh_cell : Cell
fresh_cell = record {
  cap = 4;
  torn = 0;
  seq = 0;
  len = 0;
  stamp_us = 0;
  value = 0 ∷ 0 ∷ 0 ∷ 0 ∷ [];
}

abbrev at_rest : Writer
at_rest = record { phase = idle; cell = fresh_cell; stores = 0; last = none }

at_rest-IsTidy : IsTidy at_rest
unfolding InPhase
at_rest-IsTidy = record { counts = refl; in_phase = (refl, λ p e. absurd (cc)) }

-- Two bytes at the time 77.
abbrev two_bytes : Publication
two_bytes = record { bytes = 5 ∷ 6 ∷ []; stamp = 77 }

abbrev restful : Schedule
restful t = []

admitted : write_admitted true 18 0 0 (5 ∷ 6 ∷ []) 77 fresh_cell ≡ publishes two_bytes
unfolding write_admitted
admitted = refl

pfm_write-pfm_read_example :
    (s : Snapshot) × ((pfm_read restful 4 (run (publishing two_bytes) at_rest)).0 ≡ some s)
    × (s.len ≡ length two_bytes.bytes)
    × (s.stamp ≡ two_bytes.stamp)
    × (s.bytes ≡ two_bytes.bytes)
pfm_write-pfm_read_example =
    pfm_write-pfm_read true 18 0 0 (5 ∷ 6 ∷ []) 77 two_bytes restful 4 at_rest admitted
      (ground arith) refl at_rest-IsTidy (ground arith) (λ t. refl)

-- The writer stores once before each of the first six loads: five tries find `seq` odd.
abbrev busy : Schedule
busy t = if ltb t 6 then some two_bytes ∷ [] else []

abbrev snapshot : Snapshot
snapshot = record { seq = 1; len = 2; stamp = 77; bytes = 5 ∷ 6 ∷ [] }

reads : (pfm_read busy 4 at_rest).0 ≡ some snapshot
unfolding pfm_read read_tries try_read load_rest load_bytes run store_next store_at
reads = refl

stores_few : (pfm_read busy 4 at_rest).1.stores < 2 ^ 32
unfolding pfm_read read_tries try_read load_rest load_bytes run store_next store_at
stores_few = ground arith

busy-fits : (t : ℕ) → all_fit 4 (busy t) ≡ true
busy-fits t = ground arith

pfm_read-coherent_example :
    (n : ℕ) × (m : ℕ) × (0 < n)
    × (n ≤ m)
    × ((pfm_read busy 4 at_rest).1 ≡ run_until busy m at_rest)
    × ((run_until busy n at_rest).phase ≡ idle)
    × (snapshot.seq ≡ (run_until busy n at_rest).stores % 2 ^ 32 / 2)
    × ((p : Publication)
        → (run_until busy n at_rest).last ≡ some p
        → (snapshot.len ≡ length p.bytes)
          × (snapshot.stamp ≡ p.stamp)
          × (snapshot.bytes ≡ take (at_most 4 (length p.bytes)) p.bytes))
pfm_read-coherent_example =
    pfm_read-coherent busy 4 at_rest snapshot at_rest-IsTidy busy-fits reads stores_few
