-- ===== src/Threads/Access.antt =====
-- The accessors of kernel/src/threads/thread.hpp and kernel/src/tasks/task.hpp that hold assertions.
use alux.Prelude.{ℕ, Option, none, some, if◌then◌else◌, ensure, ◌>>=◌}
use alux.Kernel.{Kernel}

-- `Thread::GetTask`
unfoldable pub get_task : Kernel → ℕ → Option ℕ
get_task k th = if (k.threads th).in_task then some (k.threads th).task else none

-- `Task::GetScheduler`; there is one scheduler.
unfoldable pub get_scheduler : Kernel → ℕ → Option (Unit {0})
get_scheduler k task = ensure (k.tasks task).in_scheduler

-- `GetTask().GetScheduler()` on a thread
unfoldable pub get_task_scheduler : Kernel → ℕ → Option (Unit {0})
unfolding get_task get_scheduler
get_task_scheduler k th = do task ← get_task k th; get_scheduler k task
