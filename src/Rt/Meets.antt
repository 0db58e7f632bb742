-- ===== src/Rt/Meets.antt =====
-- proc.c: what it means that `level_meets` is true.
use rv.Prelude.{
  ℕ, zero, suc, ◌+◌, ◌≤◌, ◌≡◌, refl, subst, ◌∙◌, inl, inr, Bool, true, beq, ◌&&◌, none, some, List,
  [], ◌∷◌, arith, ◌==◌, Bool-cases, length, get_elem?, set, length-set,
}
use rv.Rt.{Item, response_bound, level_from}
use rv.Rt.Level.{
  past, skips, late, timely, response_bound_same, strip-set, with_bound, visits, get_elem?-set_self,
  level_from-before, beyond,
}

none-beyond : (items : List Item) (i : ℕ) → get_elem? items i ≡ none → length items ≤ i
none-beyond [] i h = omega arith
none-beyond (x ∷ os) zero h = absurd (cc)
none-beyond (x ∷ os) (suc i) h = omega (arith, none-beyond os i h)

abbrev Bounded : List Item → ℕ → Item → Type 0
Bounded items j o = (o.bound ≡ response_bound items j o) × (o.bound ≤ o.d)

timely_here :
    (items : List Item) (i : ℕ) (me o : Item)
    → response_bound items i me ≤ me.d
    → with_bound items i me ≡ o
    → Bounded items i o
timely_here items i me o le e =
    subst (Bounded items i) e
      (response_bound_same items items i me (with_bound items i me) refl refl, le)

-- Where the loop finds no task late, each bounded task of the level that it passed has its response
-- bound, and that is within its deadline.
pub level_from-meets :
    (k i j : ℕ) (u : Bool) (items : List Item) (o : Item)
    → length items ≡ i + k
    → i ≤ j
    → (level_from k i u items).1 ≡ none
    → get_elem? (level_from k i u items).0 j ≡ some o
    → (o.bounded && beq o.urgent u) ≡ true
    → (o.bound ≡ response_bound items j o) × (o.bound ≤ o.d)
unfolding level_from
level_from-meets zero i j u items o len le all_met h m = absurd (beyond items j o (omega arith) h)
level_from-meets (suc k) i j u items o len le all_met h m = elim (visits k i u items) [
  | past e g ↦ absurd (omega (arith, none-beyond items i e))
  | skips me e n g ↦ elim (Bool-cases (i == j)) [
    | inl here ↦
        let at : i ≡ j = ground arith in
        let stays = level_from-before k (i + 1) i u items (omega arith) in
        absurd (ground (arith, stays, rw g at h))
    | inr there ↦
        level_from-meets k (i + 1) j u items o (omega arith) (ground arith) (rw g at all_met)
          (rw g at h) m
  ]
  | late me e n l g ↦ absurd (ground arith)
  | timely me e n l g ↦
      let items' = set items i (with_bound items i me) in
      let old = strip-set items i (response_bound items i me) me e in
      elim (Bool-cases (i == j)) [
        | inl here ↦
            let at : i ≡ j = ground arith in
            let stays = level_from-before k (i + 1) i u items' (omega arith) in
            let new = get_elem?-set_self items i (with_bound items i me) me e in
            let same : with_bound items i me ≡ o = ground (arith, stays, new, rw g at h) in
            subst (λ x. Bounded items x o) at (timely_here items i me o l same)
        | inr there ↦
            let (b, le') =
              level_from-meets k (i + 1) j u items' o
                (rw (length-set items i (with_bound items i me)) (omega arith)) (ground arith)
                (rw g at all_met) (rw g at h) m in
            (b ∙ response_bound_same items' items j o o old refl, le')
      ]
]
