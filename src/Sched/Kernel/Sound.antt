-- ===== src/Sched/Kernel/Sound.antt =====
-- sched.c: what holds of the threads and the chains whenever a thread gives up the processor.
use rv.Prelude.{
  ℕ, zero, suc, ◌+◌, ◌≡◌, refl, sym, ◌∙◌, Bool, true, false, not, ◌||◌, Option, none, some, List,
  [], ◌∷◌, arith, get_elem?, all,
}
use rv.Sched.{Thread, is_dead, age_from, wake_sleepers, reap_from}
use rv.Sched.Kernel.{Kernel, at_slot, blocked_on_of}
use rv.Sched.Kernel.Linked.{Linked, waits_on, SameQueues-Linked}

abbrev pub is_nothing : Option ℕ → Bool
is_nothing none = true
is_nothing (some q) = false

-- A thread that is dead waits on nothing.
abbrev pub is_quiet : Thread → Bool
is_quiet th = not (is_dead th) || is_nothing th.blocked_on

-- `inside` has the queue of the call of `block_on` that each thread is in, if it is in one.
pub record Sound (inside : ℕ → Option ℕ) (k : Kernel) : Type 0 where
  pub links : Linked k
  pub quiet : all is_quiet k.threads ≡ true
  pub waits_inside : (i q : ℕ) → waits_on k i ≡ some q → inside i ≡ some q

-- A thread before and after a change that leaves what it waits on.
pub record Tame (a b : Thread) : Type 0 where
  pub same : b.blocked_on ≡ a.blocked_on
  pub stays_quiet : is_quiet a ≡ true → is_quiet b ≡ true

pub data Tamed : List Thread → List Thread → Type 0 where
  nobody : Tamed [] []
  both : {a b : Thread} {xs ys : List Thread} → Tame a b → Tamed xs ys → Tamed (a ∷ xs) (b ∷ ys)

pub Tame-refl : (a : Thread) → Tame a a
Tame-refl a = record { same = refl; stays_quiet = λ h. h }

pub Tamed-refl : (xs : List Thread) → Tamed xs xs
Tamed-refl [] = nobody
Tamed-refl (a ∷ xs) = both (Tame-refl a) (Tamed-refl xs)

Tamed-waits :
    (xs ys : List Thread) (i : ℕ)
    → Tamed xs ys
    → blocked_on_of (get_elem? ys i) ≡ blocked_on_of (get_elem? xs i)
Tamed-waits _ _ i nobody = refl
Tamed-waits _ _ zero (both t ts) = t.same
Tamed-waits _ _ (suc i) (both t ts) = Tamed-waits _ _ i ts

Tamed-quiet : (xs ys : List Thread) → Tamed xs ys → all is_quiet xs ≡ true → all is_quiet ys ≡ true
Tamed-quiet _ _ nobody h = refl
Tamed-quiet (a ∷ xs) (b ∷ ys) (both t ts) h = ground (arith, t.stays_quiet, Tamed-quiet xs ys ts)

pub Sound-Tamed :
    (inside : ℕ → Option ℕ) (a b : Kernel)
    → ((q : ℕ) → b.queues q ≡ a.queues q)
    → Tamed a.threads b.threads
    → Sound inside a
    → Sound inside b
Sound-Tamed inside a b chains t s =
    let waits : (i : ℕ) → waits_on b i ≡ waits_on a i = λ i. Tamed-waits _ _ i t in
    record {
      links = SameQueues-Linked b a (record { chains = chains; waits = waits }) s.links;
      quiet = Tamed-quiet _ _ t s.quiet;
      waits_inside = λ i q h. s.waits_inside i q (sym (waits i) ∙ h);
    }

-- A write to one thread, which may be known.
pub at_slot-Tamed :
    (i : ℕ) (f : Thread → Thread) (xs : List Thread)
    → ((a : Thread) → get_elem? xs i ≡ some a → Tame a (f a))
    → Tamed xs (at_slot i f xs)
unfolding at_slot
at_slot-Tamed i f [] h = nobody
at_slot-Tamed zero f (a ∷ xs) h = both (h a refl) (Tamed-refl xs)
at_slot-Tamed (suc i) f (a ∷ xs) h = both (Tame-refl a) (at_slot-Tamed i f xs h)

pub wake_sleepers-Tamed : (t : ℕ) (xs : List Thread) → Tamed xs (wake_sleepers t xs)
unfolding wake_sleepers
wake_sleepers-Tamed t [] = nobody
wake_sleepers-Tamed t (a ∷ xs) =
    both (record { same = ground arith; stays_quiet = ground arith }) (wake_sleepers-Tamed t xs)

pub reap_from-Tamed :
    (current : Option ℕ) (i : ℕ) (xs : List Thread) → Tamed xs (reap_from current i xs)
unfolding reap_from
reap_from-Tamed current i [] = nobody
reap_from-Tamed current i (a ∷ xs) =
    both (record { same = ground arith; stays_quiet = ground arith })
      (reap_from-Tamed current (i + 1) xs)

pub age_from-Tamed :
    (i : ℕ) (top : Option (ℕ × ℕ)) (xs : List Thread) → Tamed xs (age_from i top xs)
unfolding age_from
age_from-Tamed i top [] = nobody
age_from-Tamed i top (a ∷ xs) =
    both (record { same = ground arith; stays_quiet = ground arith })
      (age_from-Tamed (i + 1) top xs)
