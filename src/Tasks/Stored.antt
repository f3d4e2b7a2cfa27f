-- ===== src/Tasks/Stored.antt =====
-- The methods of kernel/src/tasks/task.cpp at an address of the store, with the garbage collector
-- that `ThrowAway` calls.
use alux.Prelude.{ℕ, Bool, if◌then◌else◌, LinkedList}
use alux.Kernel.{Kernel, Garbage, task_garbage, put_task}
use alux.Scheduler.Collector.{throw_away}
use alux.Tasks.Task

-- `Task::Retain`
unfoldable pub retain : Kernel → ℕ → Kernel × Bool
unfolding Task.retain
retain k i = let (t, done) = Task.retain (k.tasks i) in (put_task k i t, done)

-- `Task::Hold`
unfoldable pub hold : Kernel → ℕ → Kernel × Bool
unfolding Task.hold
hold k i = let (t, done) = Task.hold (k.tasks i) in (put_task k i t, done)

-- `Task::Kill`
unfoldable pub kill : Kernel → ℕ → ℕ → Kernel
unfolding Task.kill
kill k i reason = put_task k i (Task.kill (k.tasks i) reason)

module _ (L : LinkedList Garbage) where
  -- `Task::Release`
  unfoldable pub release : Kernel → ℕ → Kernel
  unfolding Task.release
  release k i =
      let (t, done) = Task.release (k.tasks i) in
      if done then throw_away L (put_task k i t) (task_garbage i) else put_task k i t

  -- `Task::Unhold`
  unfoldable pub unhold : Kernel → ℕ → Kernel
  unfolding Task.unhold
  unhold k i =
      let (t, done) = Task.unhold (k.tasks i) in
      if done then throw_away L (put_task k i t) (task_garbage i) else put_task k i t
