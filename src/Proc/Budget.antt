-- ===== src/Proc/Budget.antt =====
-- proc.c, "Budgets": memory charged to a process's ancestors when it is forked, and given back when
-- it ends.
pub mod Refund
pub mod Within
mod Tests
use rv.Prelude.{
  ℕ, ◌+◌, ◌-◌, ◌%◌, ◌^◌, not, Option, none, some, List, [], ◌∷◌, ltb, ◌==◌, if◌then◌else◌, take,
}
use rv.Proc.{Proc, exited, is_exited, current_locked}

-- `for (q = s_procs; q; q = q->next) if (q->serial == s) { ... break; }`.
pub on_serial : ℕ → (Proc → Proc) → List Proc → List Proc
on_serial s f [] = []
on_serial s f (q ∷ qs) = if q.serial == s then f q ∷ qs else q ∷ on_serial s f qs

-- `(x > y) ? x - y : 0`.
abbrev pub less : ℕ → ℕ → ℕ
less x y = if ltb y x then x - y else 0

abbrev pub give_back : ℕ → ℕ → Proc → Proc
give_back bytes ext q = record q { held = less q.held bytes; ext_held = less q.ext_held ext }

pub uncharge_locked : List ℕ → ℕ → ℕ → List Proc → List Proc
uncharge_locked [] bytes ext ps = ps
uncharge_locked (s ∷ ss) bytes ext ps =
    uncharge_locked ss bytes ext (on_serial s (give_back bytes ext) ps)

-- Whose budget a fork would go over.
pub data Whose : Type 0 where
  its_own its_own_external : Whose
  of_pid of_pid_external : ℕ → Whose

-- The second loop over the ancestors, for one of them: the budget that it would go over.
pub over : ℕ → ℕ → ℕ → List Proc → Option Whose
over s bytes ext [] = none
over s bytes ext (q ∷ qs) =
    let next = over s bytes ext qs in
    if not (q.serial == s)
    then next
    else if is_exited q
    then none
    else if ltb q.budget (q.held + bytes)
    then some (of_pid q.pid)
    else if ltb q.ext_budget (q.ext_held + ext)
    then some (of_pid_external q.pid)
    else none

pub any_over : List ℕ → ℕ → ℕ → List Proc → Option Whose
any_over [] bytes ext ps = none
any_over (s ∷ ss) bytes ext ps =
    let rest = any_over ss bytes ext ps in
    elim (over s bytes ext ps) [ some whose ↦ some whose | none ↦ rest ]

-- `q->held += bytes; q->ext_held += ext`, on uint32_t.
abbrev pub take_on : ℕ → ℕ → Proc → Proc
take_on bytes ext q = record q {
  held = (q.held + bytes) % 2 ^ 32;
  ext_held = (q.ext_held + ext) % 2 ^ 32;
}

pub take_on_all : List ℕ → ℕ → ℕ → List Proc → List Proc
take_on_all [] bytes ext ps = ps
take_on_all (s ∷ ss) bytes ext ps = take_on_all ss bytes ext (on_serial s (take_on bytes ext) ps)

-- PROC_ANCESTORS.
abbrev pub proc_ancestors : ℕ
proc_ancestors = 8

-- The forking process and its own ancestors, nearest first.
pub ancestors_of : Option Proc → List ℕ
ancestors_of none = []
ancestors_of (some p) = if is_exited p then [] else take proc_ancestors (p.serial ∷ p.ancestors)

-- `charge_t` once it is granted.
pub record Charge : Type 0 where
  pub serial : ℕ
  pub bytes : ℕ
  pub ext : ℕ
  pub ancestors : List ℕ

pub data Charged : Type 0 where
  granted : Charge → List Proc → ℕ → Charged
  refused : Whose → Charged

-- `next_serial` is `s_next_serial`, `self` the task that forks. A refusal changes nothing.
pub charge_locked : ℕ → ℕ → ℕ → ℕ → ℕ → ℕ → List Proc → Charged
charge_locked next_serial self bytes budget ext ext_budget ps =
    let line = ancestors_of (current_locked self ps) in
    if ltb budget bytes
    then refused its_own
    else if ltb ext_budget ext
    then refused its_own_external
    else elim (any_over line bytes ext ps) [
      | some whose ↦ refused whose
      | none ↦
          granted (record { serial = next_serial; bytes = bytes; ext = ext; ancestors = line })
            (take_on_all line bytes ext ps) ((next_serial + 1) % 2 ^ 32)
    ]

-- What `refuse_fork` does to the table.
pub refund : Charge → List Proc → List Proc
refund c ps = uncharge_locked c.ancestors c.bytes c.ext ps

abbrev ended : ℕ → Proc → Proc
ended seq p = record p { state = exited; ended_seq = seq; ancestors = []; held = 0; ext_held = 0 }

-- A write through the pointer to the descriptor at `a`.
pub at_addr : ℕ → (Proc → Proc) → List Proc → List Proc
at_addr a f [] = []
at_addr a f (q ∷ qs) = if q.addr == a then f q ∷ qs else q ∷ at_addr a f qs

-- The table and `s_ended_seq`.
pub ended_locked : Proc → ℕ → List Proc → List Proc × ℕ
ended_locked p ended_seq ps =
    let seq = (ended_seq + 1) % 2 ^ 32 in
    (at_addr p.addr (ended seq) (uncharge_locked p.ancestors p.footprint p.ext_footprint ps), seq)
