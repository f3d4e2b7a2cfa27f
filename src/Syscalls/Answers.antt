-- ===== src/Syscalls/Answers.antt =====
-- What the system calls answer that leave the kernel's own objects as they are.
use alux.Prelude.{
  IdMap, [], true, ℕ, ◌≡◌, Option, none, some, LinkedList, Returns, Returns->>=, ◌>>=◌,
}
use alux.Kernel.{Kernel, Garbage}
use alux.Syscalls.Handler.{syscall_handler}
use alux.Syscalls.Calls.{Request, run, handle, uid_of, keeping}
use alux.Syscalls.Results.{Answer, Outcome, scoped, leave_scope}
use alux.Tasks.HoldScope.{Cpu, HoldScope, Entry, entered, exited, construct, destroy}
use alux.Tasks.Holding.{IsAlive, Opens, construct-Opens}

-- The thread came back, with an outcome of which Q holds, to the state in which it made the call.
abbrev pub Kept : Cpu → (Outcome → Type 0) → Answer → Type 0
Kept s Q (none, left) = ⊥
Kept s Q (some r, (s', log)) = (s' ≡ s) × Q (r, log)

-- What a body in a scope of the thread may rely on.
abbrev pub Answers : Cpu → ℕ → (Outcome → Type 0) → (HoldScope → Kernel → Option Outcome) → Type 0
Answers s th Q body =
    (scope : HoldScope) (k : Kernel)
    → uid_of scope k ≡ (s.kernel.tasks (s.kernel.threads th).task).uid
    → Returns (body scope k) Q

left-Kept :
    (L : LinkedList Garbage) (s : Cpu) (th : ℕ) (Q : Outcome → Type 0)
    (body : HoldScope → Kernel → Option Outcome) (e : Entry)
    → Answers s th Q body
    → Opens L s th e
    → Returns (leave_scope L (λ scope k. body scope k >>= λ o. some (k, o)) e) (Kept s Q)
unfolding leave_scope
left-Kept L s th Q body (exited s') h w = w
left-Kept L s th Q body (entered scope s') h w =
    kept (body scope s'.kernel) (h scope s'.kernel same)
  where
    same : uid_of scope s'.kernel ≡ (s.kernel.tasks (s.kernel.threads th).task).uid
    same = let task = w.task in let uid = w.uid in cc

    kept :
        (m : Option Outcome)
        → Returns m Q
        → let wrapped : Option (Kernel × Outcome) = m >>= λ o. some (s'.kernel, o) in
          Returns
            (wrapped >>= λ r.
              some (some r.1.0, (destroy L scope (record s' { kernel = r.0 }), r.1.1)))
            (Kept s Q)
    kept none q = q
    kept (some o) q = (w.closes, q)

-- A call with such a body leaves the state as it was, on a live task, or one that the thread holds.
pub keeping-Kept :
    (L : LinkedList Garbage) (s : Cpu) (current : Option ℕ) (th : ℕ) (Q : Outcome → Type 0)
    (body : HoldScope → Kernel → Option Outcome)
    → current ≡ some th
    → IsAlive s th
    → Answers s th Q body
    → Returns (keeping L s current body) (Kept s Q)
unfolding keeping scoped
keeping-Kept L s current th Q body e v h = rw e (
    Returns->>= (Opens L s th) (Kept s Q) (construct s (some th)) _ (construct-Opens L s th v)
      (λ o w. left-Kept L s th Q body o h w))

pub handle-eq :
    (L : LinkedList Garbage) (P : LinkedList ℕ) (M : IdMap) (q : Request) (s : Cpu) (cpu number : ℕ)
    → s.critical ≡ true
    → handle L P M q s cpu number ≡ syscall_handler (run L P M q s cpu) (s, []) number
unfolding handle
handle-eq L P M q s cpu number crit = simp crit
