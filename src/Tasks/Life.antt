-- ===== src/Tasks/Life.antt =====
-- kernel/src/tasks/task.cpp: entering the scheduler's task list, and `Dealloc`, which the two
-- classes of tasks call (see Tasks/Kinds).
use alux.Prelude.{
  ℕ, Bool, true, false, if◌then◌else◌, Option, none, some, List, [], ◌∷◌, LinkedList, IdMap, ◌>>=◌,
}
use alux.Kernel.{put_stale, Kernel, Garbage, put_task}
use alux.Tasks.Task
use alux.Threads.Life

module _ (M : IdMap) where
  -- `Task::AddToScheduler`.
  unfoldable pub add_to_scheduler : Kernel → ℕ → Kernel × Bool
  unfolding Task.add_to_scheduler
  add_to_scheduler k i = elim (M.add k.task_list i) [
    | none ↦ (put_task k i (Task.add_to_scheduler (k.tasks i) none).0, false)
    | some (ident, is) ↦ (
      put_task (record k { task_list = is }) i (Task.add_to_scheduler (k.tasks i) (some ident)).0,
      true,
    )
  ]

module _ (L : LinkedList Garbage) (P : LinkedList ℕ) (M : IdMap) where
  -- The loop over the threads. `++j` reads the link inside the thread that has just been deleted; the
  -- loop goes on with what the link held.
  unfoldable pub dealloc_threads : Kernel → List ℕ → Option Kernel
  dealloc_threads k [] = some k
  dealloc_threads k (th ∷ ths) = do
    k' ← Life.dealloc L P M k th
    dealloc_threads (put_stale k' th) ths

  -- `Task::Dealloc`
  unfoldable pub dealloc : Kernel → ℕ → Option Kernel
  unfolding dealloc_threads
  dealloc k i = do
    k' ← dealloc_threads k (k.thread_lists i)
    some (
        if (k'.tasks i).in_scheduler then record k' { task_list = M.remove k'.task_list i } else k')
