-- ===== src/Sched/Kernel/Drain.antt =====
-- sched.c: the notes that interrupts leave for the kernel.
use rv.Prelude.{
  ℕ, zero, suc, ◌+◌, ◌-◌, ◌%◌, ◌<◌, ◌≡◌, ◌≢◌, inl, inr, arith, ◌==◌, Bool-cases, get_or,
}
use rv.Sched.Kernel.{Kernel, pending_max, waitq_pop_best, drain_loop, drain_pending}

pop-head : (q : ℕ) (k : Kernel) → (waitq_pop_best q k).1.pend_head ≡ k.pend_head
unfolding waitq_pop_best
pop-head q k = ground arith

pop-tail : (q : ℕ) (k : Kernel) → (waitq_pop_best q k).1.pend_tail ≡ k.pend_tail
unfolding waitq_pop_best
pop-tail q k = ground arith

-- How many notes there are.
abbrev pub notes : Kernel → ℕ
notes k = (k.pend_head + pending_max - k.pend_tail) % pending_max

drain_loop-empty :
    (n : ℕ) (k : Kernel)
    → k.pend_head < pending_max
    → k.pend_tail < pending_max
    → notes k < n
    → (drain_loop n k).pend_tail ≡ (drain_loop n k).pend_head
unfolding drain_loop
drain_loop-empty zero k h t few = absurd (omega arith)
drain_loop-empty (suc n) k h t few = elim (Bool-cases (k.pend_tail == k.pend_head)) [
  | inl empty ↦ rw empty (ground arith)
  | inr some_left ↦
      let q = get_or k.pending k.pend_tail 0 in
      let next = record k { pend_tail = (k.pend_tail + 1) % pending_max } in
      let k' = (waitq_pop_best q next).1 in
      let head : k'.pend_head ≡ k.pend_head = pop-head q next in
      let tail : k'.pend_tail ≡ (k.pend_tail + 1) % pending_max = pop-tail q next in
      let apart : k.pend_tail ≢ k.pend_head = ground arith in
      rw some_left (
        drain_loop-empty n k' (omega (arith, head)) (omega (arith, tail))
          (omega (arith, head, tail, apart)))
]

-- Draining ends with no note left: the 16 rounds of the model are as many as the ring can need.
pub drain_pending-empty :
    (k : Kernel)
    → k.pend_head < pending_max
    → k.pend_tail < pending_max
    → (drain_pending k).pend_tail ≡ (drain_pending k).pend_head
unfolding drain_pending
drain_pending-empty k h t = drain_loop-empty pending_max k h t (omega arith)
