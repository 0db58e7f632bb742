-- ===== src/Sched/Kernel/Slots.antt =====
-- sched.c: a write to one thread of the table.
use rv.Prelude.{
  ℕ, zero, suc, ◌≡◌, refl, Bool, true, false, some, List, [], ◌∷◌, arith, ◌==◌, get_elem?, all,
}
use rv.Sched.{Thread}
use rv.Sched.Kernel.{at_slot}

pub at_slot_self :
    (i : ℕ) (f : Thread → Thread) (ths : List Thread) (th : Thread)
    → get_elem? ths i ≡ some th
    → get_elem? (at_slot i f ths) i ≡ some (f th)
unfolding at_slot
at_slot_self i f [] th h = absurd (cc)
at_slot_self zero f (t ∷ ths) th h = ground (arith)
at_slot_self (suc i) f (t ∷ ths) th h = at_slot_self i f ths th h

pub at_slot-other :
    (i j : ℕ) (f : Thread → Thread) (ths : List Thread)
    → (i == j) ≡ false
    → get_elem? (at_slot i f ths) j ≡ get_elem? ths j
unfolding at_slot
at_slot-other i j f [] h = refl
at_slot-other zero zero f (t ∷ ths) h = absurd (cc)
at_slot-other zero (suc j) f (t ∷ ths) h = refl
at_slot-other (suc i) zero f (t ∷ ths) h = refl
at_slot-other (suc i) (suc j) f (t ∷ ths) h = at_slot-other i j f ths (ground arith)

all_weaker :
    (p q : Thread → Bool) (ths : List Thread)
    → ((th : Thread) → p th ≡ true → q th ≡ true)
    → all p ths ≡ true
    → all q ths ≡ true
all_weaker p q [] weak h = refl
all_weaker p q (th ∷ ths) weak h = ground (arith, weak th, all_weaker p q ths weak)

pub all-at_slot :
    (p q : Thread → Bool) (i : ℕ) (f : Thread → Thread) (ths : List Thread)
    → ((th : Thread) → p th ≡ true → q th ≡ true)
    → ((th : Thread) → p th ≡ true → q (f th) ≡ true)
    → all p ths ≡ true
    → all q (at_slot i f ths) ≡ true
unfolding at_slot
all-at_slot p q i f [] weak step h = refl
all-at_slot p q zero f (th ∷ ths) weak step h = ground (arith, step th, all_weaker p q ths weak)
all-at_slot p q (suc i) f (th ∷ ths) weak step h =
    ground (arith, weak th, all-at_slot p q i f ths weak step)

-- Where it is known which thread is written.
pub all-at_slot_one :
    (p q : Thread → Bool) (i : ℕ) (f : Thread → Thread) (ths : List Thread) (b : Thread)
    → ((th : Thread) → p th ≡ true → q th ≡ true)
    → get_elem? ths i ≡ some b
    → q (f b) ≡ true
    → all p ths ≡ true
    → all q (at_slot i f ths) ≡ true
unfolding at_slot
all-at_slot_one p q i f [] b weak at e h = refl
all-at_slot_one p q zero f (th ∷ ths) b weak at e h = ground (arith, all_weaker p q ths weak)
all-at_slot_one p q (suc i) f (th ∷ ths) b weak at e h =
    ground (arith, weak th, all-at_slot_one p q i f ths b weak at e)
