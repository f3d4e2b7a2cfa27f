-- ===== src/Tasks/Holding.antt =====
-- What the scopes of hold-scope.cpp do to the hold count of a task.
use alux.Prelude.{
  ℕ, ◌+◌, ◌^◌, ◌<◌, ◌≡◌, ◌≢◌, refl, true, false, not, ◌&&◌, if◌then◌else◌, Option, none, some,
  LinkedList, Returns, minus_one, inc32, arith, update_restore, update_twice, ◌>>=◌,
}
use alux.Kernel.{Garbage}
use alux.Tasks.Task
use alux.Scheduler.Collector.{throw_away}
use alux.Threads.Access.{get_task, get_scheduler}
use alux.Threads.Counts
use alux.Tasks.HoldScope.{Cpu, HoldScope, Entry, entered, exited, construct, destroy, exit_task}

-- The destructor right after the constructor, for a scope that was entered.
abbrev pub left_again : LinkedList Garbage → Entry → Option Cpu
left_again L (entered scope s) = some (destroy L scope s)
left_again L (exited s) = none

abbrev pub exit_from : LinkedList Garbage → ℕ → Entry → Option Cpu
exit_from L status (entered scope s) = exit_task L scope status s
exit_from L status (exited s) = none

-- A live task, or one that the thread holds: a scope of the thread is entered and left without a
-- trace.
pub record IsAlive (s : Cpu) (th : ℕ) : Type 0 where
  pub joined : (s.kernel.threads th).in_task ≡ true
  pub small : (s.kernel.tasks (s.kernel.threads th).task).hold_count < 2 ^ 32
  pub alive :
      Task.is_killed (s.kernel.tasks (s.kernel.threads th).task)
        && not (s.kernel.threads th).holding_task
      ≡ false

-- A scope that is entered and left again restores the state, in a first scope as in a nested one:
-- the counters and the mark of the thread, the garbage and the criticality. The task is alive, or the
-- thread holds it already.
pub construct-destroy :
    (L : LinkedList Garbage) (s : Cpu) (th : ℕ)
    → (s.kernel.threads th).in_task ≡ true
    → (s.kernel.tasks (s.kernel.threads th).task).hold_count < 2 ^ 32
    → Task.is_killed (s.kernel.tasks (s.kernel.threads th).task)
        && not (s.kernel.threads th).holding_task
      ≡ false
    → (construct s (some th) >>= left_again L) ≡ some s
unfolding construct destroy Task.hold Task.unhold
construct-destroy L s th h small alive =
    let k = s.kernel in
    let t = k.threads th in
    let task = k.tasks t.task in
    ground (
      arith,
      update_twice k.threads th (record t { holding_task = true }) t,
      update_restore k.threads th,
      update_twice k.tasks t.task (record task { hold_count = inc32 task.hold_count }) task,
      update_restore k.tasks t.task,
    )

-- What a scope knows when it is entered, and that leaving it restores the state.
pub record IsOpen (L : LinkedList Garbage) (s : Cpu) (th : ℕ) (scope : HoldScope) (s' : Cpu)
    : Type 0 where
  pub thread : scope.thread ≡ th
  pub task : scope.task ≡ (s.kernel.threads th).task
  pub uid : (s'.kernel.tasks scope.task).uid ≡ (s.kernel.tasks scope.task).uid
  pub closes : destroy L scope s' ≡ s

abbrev pub Opens : LinkedList Garbage → Cpu → ℕ → Entry → Type 0
Opens L s th (entered scope s') = IsOpen L s th scope s'
Opens L s th (exited s') = ⊥

abbrev Knows : Cpu → ℕ → Entry → Type 0
Knows s th (entered scope s') =
    (scope.thread ≡ th)
    × (scope.task ≡ (s.kernel.threads th).task)
    × ((s'.kernel.tasks scope.task).uid ≡ (s.kernel.tasks scope.task).uid)
Knows s th (exited s') = Unit

construct-Knows : (s : Cpu) (th : ℕ) → IsAlive s th → Returns (construct s (some th)) (Knows s th)
unfolding construct Task.hold get_task get_scheduler Counts.kill
construct-Knows s th v = ground (arith, v.joined, v.alive)

pub construct-Opens :
    (L : LinkedList Garbage) (s : Cpu) (th : ℕ)
    → IsAlive s th
    → Returns (construct s (some th)) (Opens L s th)
construct-Opens L s th v =
    opened (construct s (some th)) (construct-destroy L s th v.joined v.small v.alive)
      (construct-Knows s th v)
  where
    opened :
        (e : Option Entry)
        → (e >>= left_again L) ≡ some s
        → Returns e (Knows s th)
        → Returns e (Opens L s th)
    opened none h w = w
    opened (some (entered scope s')) h w = record {
      thread = w.0;
      task = w.1;
      uid = w.2;
      closes = cc;
    }
    opened (some (exited s')) h w = cc

-- `ExitTask` from a scope, nested or not, of a live task that the thread holds at most once: the call
-- returns from all but its `Yield`, the thread and the task are killed, with the status as the
-- reason, and the hold count is what it was before the thread held the task.
pub construct-exit_task :
    (L : LinkedList Garbage) (s : Cpu) (th status others : ℕ)
    → (s.kernel.threads th).in_task ≡ true
    → (s.kernel.tasks (s.kernel.threads th).task).in_scheduler ≡ true
    → (s.kernel.tasks (s.kernel.threads th).task).hold_count
      ≡ others + (if (s.kernel.threads th).holding_task then 1 else 0)
    → others + 1 < 2 ^ 32
    → Task.is_killed (s.kernel.tasks (s.kernel.threads th).task) ≡ false
    → status ≢ minus_one
    → Returns (construct s (some th) >>= exit_from L status) λ s'.
      ((s'.kernel.threads th).killed ≡ true)
      × (Task.get_kill_reason (s'.kernel.tasks (s.kernel.threads th).task) ≡ status)
      × ((s'.kernel.tasks (s.kernel.threads th).task).hold_count ≡ others)
      × (s'.critical ≡ true)
unfolding construct exit_task throw_away Task.hold Task.unhold Task.kill Task.get_kill_reason
    get_scheduler
construct-exit_task L s th status others h sched c small alive ne = ground arith

-- On a killed task that the thread does not hold, the constructor exits: it kills the thread and
-- leaves the tasks as they were.
pub construct_exits :
    (s : Cpu) (th : ℕ)
    → (s.kernel.threads th).in_task ≡ true
    → (s.kernel.tasks (s.kernel.threads th).task).in_scheduler ≡ true
    → Task.is_killed (s.kernel.tasks (s.kernel.threads th).task) ≡ true
    → (s.kernel.threads th).holding_task ≡ false
    → (s' : Cpu) × (construct s (some th) ≡ some (exited s'))
      × ((s'.kernel.threads th).killed ≡ true)
      × (s'.kernel.tasks ≡ s.kernel.tasks)
unfolding construct Task.hold get_task get_scheduler Counts.kill
construct_exits s th h sched dead free =
    let home = (s.kernel.threads th).task in
    let e = update_restore s.kernel.tasks home in
    (record s { kernel = Counts.kill s.kernel th }, ground (arith, e), ground (arith, e), refl)
