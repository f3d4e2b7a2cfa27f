-- ===== src/Tasks/HoldScope.antt =====
-- kernel/src/tasks/hold-scope.cpp.
use alux.Prelude.{
  ℕ, Bool, true, false, not, if◌then◌else◌, Option, none, some, LinkedList, ◌>>=◌, ◌>>◌,
}
use alux.Kernel.{Kernel, Garbage, put_thread}
use alux.Tasks.Stored
use alux.Threads.Access.{get_task, get_scheduler}
use alux.Threads.Counts

-- The kernel and whether the CPU is in a critical section.
pub record Cpu : Type 0 where
  pub kernel : Kernel
  pub critical : Bool

-- `class HoldScope`
pub record HoldScope : Type 0 where
  pub was_critical : Bool
  pub did_hold : Bool
  pub task : ℕ
  pub thread : ℕ

-- The constructor gives a scope, or kills the thread and yields for ever.
pub data Entry : Type 0 where
  entered : HoldScope → Cpu → Entry
  exited : Cpu → Entry

abbrev pub set_holding : Kernel → ℕ → Bool → Kernel
set_holding k th b = put_thread k th (record (k.threads th) { holding_task = b })

-- What the constructor does once it knows the thread and its task.
enter : Cpu → ℕ → ℕ → Option Entry
unfolding Stored.hold get_scheduler Counts.kill
enter s th task =
    let k = s.kernel in
    let did_hold = not (k.threads th).holding_task in
    let scope : HoldScope = record {
      was_critical = s.critical;
      did_hold = did_hold;
      task = task;
      thread = th;
    } in
    let (k', held) = Stored.hold k task in
    if not did_hold
    then some (entered scope (record { kernel = k; critical = false }))
    else if held
    then some (entered scope (record { kernel = set_holding k' th true; critical = false }))
    else (get_scheduler k' task >> some (exited (record s { kernel = Counts.kill k' th })))

-- `HoldScope::HoldScope`; `th` is what `Thread::GetCurrent` returns.
unfoldable pub construct : Cpu → Option ℕ → Option Entry
unfolding enter get_task
construct s none = none
construct s (some th) = do task ← get_task s.kernel th; enter s th task

module _ (L : LinkedList Garbage) where
  -- `HoldScope::~HoldScope`
  unfoldable pub destroy : HoldScope → Cpu → Cpu
  unfolding Stored.unhold
  destroy scope s =
      if scope.did_hold
      then record {
        kernel = Stored.unhold L (set_holding s.kernel scope.thread false) scope.task;
        critical = scope.was_critical;
      }
      else record s { critical = scope.was_critical }

  -- `HoldScope::ExitThread`, up to the `Yield` from which it does not come back.
  unfoldable pub exit_thread : HoldScope → Cpu → Option Cpu
  unfolding Stored.unhold Counts.kill get_scheduler
  exit_thread scope s =
      let k = Stored.unhold L (Counts.kill s.kernel scope.thread) scope.task in
      get_scheduler k scope.task >> some (record { kernel = k; critical = true })

  -- `HoldScope::ExitTask`, up to the `Yield` from which it does not come back.
  unfoldable pub exit_task : HoldScope → ℕ → Cpu → Option Cpu
  unfolding Stored.unhold Stored.kill Counts.kill get_scheduler
  exit_task scope status s =
      let k' = Stored.kill (Counts.kill s.kernel scope.thread) scope.task status in
      let k = Stored.unhold L k' scope.task in
      get_scheduler k scope.task >> some (record { kernel = k; critical = true })
