-- ===== src/Claim/History/Sound.antt =====
-- claim.c: every step keeps the table well formed and its counts exact.
use rv.Prelude.{
  ℕ, ◌<◌, ◌≡◌, refl, inl, inr, Bool, true, Option, none, some, List, arith, Option-cases, length,
  all,
}
use rv.Claim.{
  Claim, Table, name_max, modify, take_locked, claim_take, claim_drop, claim_reserve,
  claim_release_pid, find_owned, promise, claim_failsafe,
}
use rv.Claim.Invariant.{
  Valid, all-modify, Consistent-modify_same, reserved_alone, has_room, is_fresh,
}
use rv.Claim.Take.{take_locked-Consistent, take_locked-alone}
use rv.Claim.Drop.{drop_locked-Valid}
use rv.Claim.Release.{release_from-Valid}
use rv.Claim.Reserve.{take_locked_kept, reserve_locked-Valid}
use rv.Claim.Counts.{take_locked-Accounted, drop_locked-Accounted, release_from-Accounted}
use rv.Claim.Accounts.{Accounted, counted, more, fewer, absent-modify}
use rv.Claim.ReserveAccounts.{reserve_locked-Accounted}
use rv.Claim.History.{
  World, Step, opens, refused, closes, reserves, releases, promises_to, Reach, start, next,
  with_claims,
}

pub record Sound (w : World) : Type 0 where
  pub valid : Valid w.table.claims
  pub accounted : Accounted w.held w.table.claims
  pub live : w.table.ready ≡ true

-- The lists that the operations on a live table leave.
take-live :
    (res : List ℕ) (owner : ℕ) (exclusive : Bool) (mem : Option ℕ) (t : Table)
    → t.ready ≡ true
    → claim_take (some res) owner exclusive true mem t ≡ (
      (take_locked res owner exclusive mem t.claims).0,
      (take_locked res owner exclusive mem t.claims).1,
      with_claims t (take_locked res owner exclusive mem t.claims).2,
    )
unfolding claim_take
take-live res owner exclusive mem t h = ground arith

promise-counted :
    (held : ℕ → ℕ) (value : ℕ) (c : Claim)
    → counted held c ≡ true
    → counted held (promise value c) ≡ true
promise-counted held value c h = h

promise-Sound :
    (value a : ℕ) (held : ℕ → ℕ) (cs : List Claim)
    → Valid cs
    → Accounted held cs
    → Valid (modify a (promise value) cs) × Accounted held (modify a (promise value) cs)
promise-Sound value a held cs v k = (
  record {
    consistent =
        Consistent-modify_same (promise value) (λ c. refl) (λ c. refl) (λ c. refl) (λ c. refl)
          (λ c. refl) a cs v.consistent;
    alone = all-modify reserved_alone (promise value) (λ c h. h) a cs v.alone;
  },
  record {
    exact = all-modify (counted held) (promise value) (promise-counted held value) a cs k.exact;
    present = λ b g. k.present b (rw (absent-modify a b (promise value) cs (λ c. refl)) at g);
  },
)

failsafe-Sound :
    (res : List ℕ) (owner value : ℕ) (w : World)
    → Sound w
    → Sound (record { table = (claim_failsafe (some res) owner value w.table).1; held = w.held })
unfolding claim_failsafe
failsafe-Sound res owner value w s = elim (Option-cases (find_owned res owner w.table.claims)) [
  | inl e ↦ rw (s.live, e) s
  | inr (a, e) ↦
      let (v, k) = promise-Sound value a w.held w.table.claims s.valid s.accounted in
      rw (s.live, e) (record { valid = v; accounted = k; live = s.live })
]

opens-Sound :
    (res : List ℕ) (owner : ℕ) (exclusive : Bool) (mem : Option ℕ) (a : ℕ) (w : World)
    → length res < name_max
    → is_fresh mem w.table.claims ≡ true
    → all has_room w.table.claims ≡ true
    → (claim_take (some res) owner exclusive true mem w.table).1 ≡ some a
    → Sound w
    → Sound (record {
      table = (claim_take (some res) owner exclusive true mem w.table).2;
      held = more a w.held;
    })
opens-Sound res owner exclusive mem a w short fresh room e s =
    let live = take-live res owner exclusive mem w.table s.live in
    rw live (record {
      valid = record {
        consistent =
            take_locked-Consistent res owner exclusive mem w.table.claims short fresh room
              s.valid.consistent;
        alone = take_locked-alone res owner exclusive mem w.table.claims s.valid.alone;
      };
      accounted =
          take_locked-Accounted w.held res owner a exclusive mem w.table.claims fresh room
            s.valid.consistent s.accounted (rw live at e);
      live = s.live;
    })

refused-Sound :
    (res : List ℕ) (owner : ℕ) (exclusive : Bool) (mem : Option ℕ) (w : World)
    → (claim_take (some res) owner exclusive true mem w.table).1 ≡ none
    → Sound w
    → Sound (record {
      table = (claim_take (some res) owner exclusive true mem w.table).2;
      held = w.held;
    })
refused-Sound res owner exclusive mem w e s =
    let live = take-live res owner exclusive mem w.table s.live in
    rw (live, take_locked_kept res owner exclusive mem w.table.claims (rw live at e)) s

closes-Sound :
    (a : ℕ) (w : World)
    → 0 < w.held a
    → Sound w
    → Sound (record { table = claim_drop (some a) w.table; held = fewer a w.held })
unfolding claim_drop
closes-Sound a w h s = rw s.live (record {
  valid = drop_locked-Valid a w.table.claims s.valid;
  accounted = drop_locked-Accounted w.held a w.table.claims s.valid.consistent s.accounted h;
  live = refl;
})

reserves-Sound :
    (res : List ℕ) (owner : ℕ) (mem : Option ℕ) (w : World)
    → length res < name_max
    → is_fresh mem w.table.claims ≡ true
    → all has_room w.table.claims ≡ true
    → Sound w
    → Sound (record { table = (claim_reserve (some res) owner true mem w.table).1; held = w.held })
unfolding claim_reserve
reserves-Sound res owner mem w short fresh room s = rw s.live (record {
  valid = reserve_locked-Valid res owner mem w.table.claims short fresh room s.valid;
  accounted =
      reserve_locked-Accounted w.held res owner mem w.table.claims short fresh room s.valid
        s.accounted;
  live = refl;
})

releases-Sound :
    (owner : ℕ) (w : World)
    → Sound w
    → Sound (record { table = claim_release_pid owner w.table; held = w.held })
unfolding claim_release_pid
releases-Sound owner w s = rw s.live (record {
  valid = release_from-Valid owner w.table.claims s.valid;
  accounted = release_from-Accounted w.held owner w.table.claims s.valid.consistent s.accounted;
  live = refl;
})

Step-Sound : {w u : World} → Step w u → Sound w → Sound u
Step-Sound {w = w} (opens res owner exclusive mem a short fresh room e) s =
    opens-Sound res owner exclusive mem a w short fresh room e s
Step-Sound {w = w} (refused res owner exclusive mem e) s =
    refused-Sound res owner exclusive mem w e s
Step-Sound {w = w} (closes a h) s = closes-Sound a w h s
Step-Sound {w = w} (reserves res owner mem short fresh room) s =
    reserves-Sound res owner mem w short fresh room s
Step-Sound {w = w} (releases owner) s = releases-Sound owner w s
Step-Sound {w = w} (promises_to res owner value) s = failsafe-Sound res owner value w s

pub Reach-Sound : {w : World} → Reach w → Sound w
Reach-Sound start = record {
  valid = record { consistent = tt; alone = refl };
  accounted = record { exact = refl; present = λ a h. refl };
  live = refl;
}
Reach-Sound (next r st) = Step-Sound st (Reach-Sound r)
