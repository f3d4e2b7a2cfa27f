-- ===== src/Syscalls/Harmless.antt =====
-- The system calls of kernel/src/syscall, for the scheduler.
use alux.Prelude.{
  ◌≢◌, false, ℕ, ◌≡◌, ◌⊎◌, inl, ◌∙◌, true, Bool, Option, none, some, [], LinkedList, Returns,
  Returns->>=, arith,
}
use alux.Kernel.{Kernel, Garbage}
use alux.Scheduler.Safely.{Safely, Safely-trans}
use alux.Syscalls.Answers.{Kept}
use alux.Syscalls.Results.{Answer, Body, Outcome, scoped, leave_scope}
use alux.Tasks.HoldScope.{Cpu, HoldScope, Entry, entered, exited, construct, destroy, set_holding}
use alux.Tasks.Inside.{
  IsCalling, Starts, Enters, held_by, construct-Starts, destroy-Safely, destroy-held,
  held_by-Safely,
}
use alux.Tasks.Settled.{kill-Orderly, left-IsSettled, unhold-marks}
use alux.Tasks.Steady.{IsSettled, Orderly, Orderly-same, Keeps-IsSettled}
use alux.Threads.Counts

-- The scheduler goes on as before, the CPU is critical again, and where the thread does not come back, it
-- has been killed, or waits; no scope is left behind but by a thread that has been killed, and no other
-- thread's scope is touched.
pub record IsHarmless (s : Cpu) (th : ℕ) (waits : Bool) (a : Answer) : Type 0 where
  pub safe : Safely s.kernel a.1.0.kernel
  pub critical : a.1.0.critical ≡ true
  pub lost : a.0 ≡ none → ((a.1.0.kernel.threads th).killed ≡ true) ⊎ (waits ≡ true)
  pub settled : IsSettled s.kernel → IsSettled a.1.0.kernel
  pub others :
      (x : ℕ)
      → x ≢ th
      → (a.1.0.kernel.threads x).holding_task ≡ true
      → (s.kernel.threads x).holding_task ≡ true
  pub back : a.0 ≢ none → (a.1.0.kernel.threads th).holding_task ≡ false

-- An orderly change outside of scopes
pub Orderly-IsHarmless :
    (s : Cpu) (th : ℕ) (waits : Bool) (a : Answer)
    → IsCalling s.kernel th
    → Orderly s.kernel a.1.0.kernel
    → a.1.0.critical ≡ true
    → (a.0 ≡ none → ((a.1.0.kernel.threads th).killed ≡ true) ⊎ (waits ≡ true))
    → IsHarmless s th waits a
Orderly-IsHarmless s th waits a v w crit lost = record {
  safe = w.safe;
  critical = crit;
  lost = lost;
  settled = Keeps-IsSettled w.keeps;
  others = λ x n. w.keeps.holding x;
  back = λ n. ground (arith, w.keeps.holding th, v.outside);
}

pub Kept-IsHarmless :
    (s : Cpu) (th : ℕ) (waits : Bool) (Q : Outcome → Type 0) (a : Answer)
    → s.critical ≡ true
    → IsCalling s.kernel th
    → Kept s Q a
    → IsHarmless s th waits a
Kept-IsHarmless s th waits Q (none, left) crit v w = absurd w
Kept-IsHarmless s th waits Q (some r, (s', log)) crit v w =
    Orderly-IsHarmless s th waits (some r, (s', log)) v (rw w.0 (Orderly-same s.kernel))
      (rw w.0 crit) (λ e. cc)

-- The thread has been killed, as it entered a scope.
pub turned_away-IsHarmless :
    (s : Cpu) (th : ℕ) (waits : Bool) (s' : Cpu)
    → s.critical ≡ true
    → IsCalling s.kernel th
    → Starts s th (exited s')
    → IsHarmless s th waits (none, (s', []))
unfolding Counts.kill
turned_away-IsHarmless s th waits s' crit v w =
    Orderly-IsHarmless s th waits (none, (s', [])) v (rw w.1 (kill-Orderly s.kernel th))
      (w.0 ∙ crit) (λ e. inl (rw w.1 (ground arith)))

-- What the body of a call does to the kernel inside the scope.
abbrev pub Works : Kernel → ℕ → Body → Type 0
Works k th body =
    (scope : HoldScope)
    → scope.thread ≡ th
    → scope.task ≡ (k.threads th).task
    → Returns (body scope (held_by k th)) (λ r. Orderly (held_by k th) r.0)

-- The call returns from its scope.
pub returns-IsHarmless :
    (L : LinkedList Garbage) (s : Cpu) (th : ℕ) (waits : Bool) (scope : HoldScope) (s' : Cpu)
    (k : Kernel) (r : Outcome)
    → s.critical ≡ true
    → Enters s th scope s'
    → Orderly (held_by s.kernel th) k
    → IsHarmless s th waits (some r.0, (destroy L scope (record s' { kernel = k }), r.1))
returns-IsHarmless L s th waits scope s' k r crit w q =
    let home = (s.kernel.threads th).task in
    let (safe, critical) = destroy-Safely L scope (record s' { kernel = k }) in
    let same = destroy-held L scope (record s' { kernel = k }) w.did_hold in
    let mark = unhold-marks L (set_holding k th false) home in
    record {
      safe = Safely-trans (held_by-Safely s.kernel th) (Safely-trans q.safe safe);
      critical = critical ∙ w.was_critical ∙ crit;
      lost = λ e. cc;
      settled = λ v. rw (same, w.thread, w.task) (left-IsSettled L s.kernel k th q.keeps v);
      others =
          λ x n. rw (same, w.thread, w.task, mark x) (λ h. ground (arith, q.keeps.holding x, h, n));
      back = λ n. rw (same, w.thread, w.task, mark th) (ground arith);
    }

left-IsHarmless :
    (L : LinkedList Garbage) (s : Cpu) (th : ℕ) (waits : Bool) (body : Body) (e : Entry)
    → s.critical ≡ true
    → IsCalling s.kernel th
    → Works s.kernel th body
    → Starts s th e
    → Returns (leave_scope L body e) (IsHarmless s th waits)
unfolding leave_scope
left-IsHarmless L s th waits body (exited s') crit v h w =
    turned_away-IsHarmless s th waits s' crit v w
left-IsHarmless L s th waits body (entered scope s') crit v h w =
    Returns->>= (λ r. Orderly (held_by s.kernel th) r.0) (IsHarmless s th waits)
      (body scope s'.kernel) _ (rw w.kernel (h scope w.thread w.task))
      (λ r q. returns-IsHarmless L s th waits scope s' r.0 r.1 crit w q)

pub scoped-IsHarmless :
    (L : LinkedList Garbage) (s : Cpu) (current : Option ℕ) (th : ℕ) (waits : Bool) (body : Body)
    → current ≡ some th
    → s.critical ≡ true
    → IsCalling s.kernel th
    → Works s.kernel th body
    → Returns (scoped L s current body) (IsHarmless s th waits)
unfolding scoped
scoped-IsHarmless L s current th waits body e crit v h = rw e (
    Returns->>= (Starts s th) (IsHarmless s th waits) (construct s (some th)) _
      (construct-Starts s th v) (λ o w. left-IsHarmless L s th waits body o crit v h w))
