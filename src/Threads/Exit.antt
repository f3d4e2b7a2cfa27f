-- ===== src/Threads/Exit.antt =====
-- `ExitCurrent` of kernel/src/threads/thread.cpp.
use alux.Prelude.{ℕ, Option, LinkedList, ◌>>=◌, ◌>>◌}
use alux.Kernel.{Kernel, Garbage}
use alux.Scheduler.Switch.{Outcome, yield_thread}
use alux.Threads.Access.{get_task_scheduler}
use alux.Threads.Counts.{kill}

module _ (L : LinkedList Garbage) (P : LinkedList ℕ) where
  -- `Thread::ExitCurrent`, with what the CPU does once the thread has given it up.
  unfoldable pub exit_current : Kernel → ℕ → ℕ → (ℕ → ℕ) → Option (Kernel × Outcome)
  unfolding kill get_task_scheduler yield_thread
  exit_current k cpu now scale = k.current cpu >>= λ th.
      get_task_scheduler (kill k th) th >> yield_thread L P (kill k th) cpu now scale
