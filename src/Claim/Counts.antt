-- ===== src/Claim/Counts.antt =====
-- claim.c: taking, dropping and releasing keep every count exact.
use rv.Prelude.{
  ℕ, ◌<◌, ◌≡◌, refl, ap, subst, inl, inr, Bool, true, false, Option, none, some, List, [], ◌∷◌,
  arith, ◌==◌, Bool-cases, all,
}
use rv.Claim.{Claim, clear, modify, scan, join, new_claim, take_locked, drop_locked, release_from}
use rv.Claim.Invariant.{Consistent, holds_at, scan-holds_at, has_room, is_fresh}
use rv.Claim.Take.{Scan-cases}
use rv.Claim.Drop.{drop_locked-dropped}
use rv.Claim.Release.{release_from-released}
use rv.Claim.Accounts.{
  Accounted, absent, counted, more, fewer, counted-modify, counted-dropped, absent-modify,
  absent-dropped, absent-released, counted-released,
}

join-counted :
    (held : ℕ → ℕ) (a : ℕ) (exclusive : Bool) (c : Claim)
    → has_room c ≡ true
    → c.addr ≡ a
    → counted held c ≡ true
    → counted (more a held) (join exclusive c) ≡ true
unfolding join
join-counted held a exclusive c r e k = ground arith

pub joined-Accounted :
    (held : ℕ → ℕ) (a : ℕ) (exclusive : Bool) (cs : List Claim)
    → all has_room cs ≡ true
    → Consistent cs
    → absent a cs ≡ false
    → Accounted held cs
    → Accounted (more a held) (modify a (join exclusive) cs)
unfolding join
joined-Accounted held a exclusive cs r v there k = record {
  exact =
      counted-modify held (more a held) a (λ x h. ground arith) (join exclusive) (λ c. refl)
        has_room (join-counted held a exclusive) cs v r k.exact;
  present = λ b h.
      let gone : absent b cs ≡ true = rw (absent-modify a b (join exclusive) cs (λ c. refl)) at h in
      elim (Bool-cases (b == a)) [
        | inl e ↦ absurd (clash b gone (ground arith))
        | inr e ↦ ground (arith, k.present b gone)
      ];
}
  where
    clash : (b : ℕ) → absent b cs ≡ true → b ≡ a → ⊥
    clash b gone e = cc (ap (λ x. absent x cs) e)

pub not-absent :
    (a : ℕ) (res : List ℕ) (owner : ℕ) (cs : List Claim)
    → holds_at a res owner cs ≡ true
    → absent a cs ≡ false
not-absent a res owner [] h = absurd (cc)
not-absent a res owner (c ∷ cs) h = ground (arith, not-absent a res owner cs)

pub fresh-absent : (a : ℕ) (cs : List Claim) → is_fresh (some a) cs ≡ true → absent a cs ≡ true
fresh-absent a [] h = refl
fresh-absent a (c ∷ cs) h = ground (arith, fresh-absent a cs)

counted-new :
    (held : ℕ → ℕ) (a : ℕ) (cs : List Claim)
    → absent a cs ≡ true
    → all (counted held) cs ≡ true
    → all (counted (more a held)) cs ≡ true
counted-new held a [] h k = refl
counted-new held a (c ∷ cs) h k = ground (arith, counted-new held a cs)

pub new-Accounted :
    (held : ℕ → ℕ) (res : List ℕ) (owner a : ℕ) (exclusive : Bool) (cs : List Claim)
    → absent a cs ≡ true
    → Accounted held cs
    → Accounted (more a held) (new_claim a res owner exclusive ∷ cs)
unfolding new_claim
new-Accounted held res owner a exclusive cs h k = record {
  exact = ground (arith, k.present a h, counted-new held a cs h k.exact);
  present = λ b g. ground (arith, k.present b);
}

-- `take_locked` hands out one pointer more to the record that it returns, and counts it.
pub take_locked-Accounted :
    (held : ℕ → ℕ) (res : List ℕ) (owner a : ℕ) (exclusive : Bool) (mem : Option ℕ)
    (cs : List Claim)
    → is_fresh mem cs ≡ true
    → all has_room cs ≡ true
    → Consistent cs
    → Accounted held cs
    → (take_locked res owner exclusive mem cs).1 ≡ some a
    → Accounted (more a held) (take_locked res owner exclusive mem cs).2
unfolding take_locked
take_locked-Accounted held res owner a exclusive mem cs fresh r v k h =
    elim (Scan-cases (scan res owner exclusive none cs)) [
      | inl (by, e) ↦ absurd (ground arith)
      | inr (inl (x, e)) ↦
          let same : x ≡ a = ground arith in
          let own : holds_at x res owner cs ≡ true =
            ground (arith, scan-holds_at res owner exclusive none x cs v) in
          rw (e, take_locked)
            (subst (λ y. Accounted (more y held) (modify x (join exclusive) cs)) same
              (joined-Accounted held x exclusive cs r v (not-absent x res owner cs own) k))
      | inr (inr e) ↦ added mem fresh h e
    ]
  where
    added :
        (mem : Option ℕ)
        → is_fresh mem cs ≡ true
        → (take_locked res owner exclusive mem cs).1 ≡ some a
        → scan res owner exclusive none cs ≡ clear none
        → Accounted (more a held) (take_locked res owner exclusive mem cs).2
    added none f h e = absurd (ground arith)
    added (some b) f h e =
        let same : b ≡ a = ground arith in
        rw (e, take_locked)
          (subst (λ y. Accounted (more y held) (new_claim b res owner exclusive ∷ cs)) same
            (new-Accounted held res owner b exclusive cs (fresh-absent b cs f) k))

-- Dropping a pointer that is held uncounts it; the record is freed only when nothing refers to it.
pub drop_locked-Accounted :
    (held : ℕ → ℕ) (a : ℕ) (cs : List Claim)
    → Consistent cs
    → Accounted held cs
    → 0 < held a
    → Accounted (fewer a held) (drop_locked a cs).1
drop_locked-Accounted held a cs v k h = rw (drop_locked-dropped a cs) (record {
  exact =
      counted-dropped held (fewer a held) a (λ x g. ground arith) (λ c e g p. ground arith) cs v
        k.exact;
  present = λ b g. ground (arith, k.present b, absent-dropped held a b cs k.exact g);
})

-- Releasing what a process reserved takes no open path's record away.
pub release_from-Accounted :
    (held : ℕ → ℕ) (owner : ℕ) (cs : List Claim)
    → Consistent cs
    → Accounted held cs
    → Accounted held (release_from owner cs cs)
release_from-Accounted held owner cs v k = rw (release_from-released owner cs v) (record {
  exact = counted-released held owner cs k.exact;
  present = λ b g. ground (arith, k.present b, absent-released held owner b cs k.exact g);
})
