-- ===== src/Boot/Start.antt =====
-- The constructor and `Run` of kernel/src/scheduler/rr-scheduler.cpp, `New` of
-- kernel/src/tasks/kernel-task.cpp and user-task.cpp, and the part of kernel/src/arch/x64/main.cpp
-- that works on the kernel's own objects. The addresses are those that `new` gives.
use alux.Prelude.{
  ℕ, Bool, true, false, if◌then◌else◌, Option, some, List, [], ◌∷◌, LinkedList, IdMap, ensure,
  ◌>>=◌, ◌>>◌,
}
use alux.Kernel.{Kernel, Garbage, put_task}
use alux.Scheduler.Switch.{switch}
use alux.Tasks.Life as task_life
use alux.Tasks.Stored
use alux.Tasks.Task.{new_task}
use alux.Threads.Counts.{release}
use alux.Threads.Life.{create_thread, add_to_task, add_to_scheduler}

-- The user of kernel tasks and of the first user task.
abbrev pub root : ℕ
root = 0

-- What `new` gives for a task and its thread: the addresses, and the values of the fields
-- `Identifier` of the thread and `deadline` of its `ThreadObj`, which no constructor sets.
pub record Fresh : Type 0 where
  pub task : ℕ
  pub thread : ℕ
  pub identifier : ℕ
  pub deadline : ℕ

-- `KernelTask::New` and `UserTask::New`, for the scheduler's store
unfoldable pub new_kernel_task : Kernel → ℕ → Kernel
unfolding new_task
new_kernel_task k task = put_task k task (new_task root)

unfoldable pub new_user_task : Kernel → (task uid : ℕ) → Kernel
unfolding new_task
new_user_task k task uid = put_task k task (new_task uid)

module _ (L : LinkedList Garbage) (P : LinkedList ℕ) (T M : IdMap) where
  -- A task's first thread: the task enters the scheduler, the thread the task and the scheduler, and
  -- both are given back. A failure is a panic. The collector's thread is noted on the way.
  unfoldable pub first_thread : Kernel → Fresh → Bool → Option Kernel
  first_thread k f collects = do
    let (k1, added) = task_life.add_to_scheduler T k f.task
    ensure added
    k2 ← create_thread (Stored.retain k1 f.task).0 f.task f.thread f.identifier
    let noted = record k2 { collector_thread = if collects then f.thread else k2.collector_thread }
    (k3, joined) ← add_to_task M noted f.thread
    ensure joined
    k4 ← add_to_scheduler P k3 f.thread f.deadline
    k5 ← release L k4 f.thread
    some (Stored.unhold L k5 f.task)

  -- `RRScheduler::RRScheduler`
  unfoldable pub construct : Kernel → Fresh → Option Kernel
  unfolding new_kernel_task first_thread
  construct k f = first_thread (new_kernel_task k f.task) f true

  -- `AluxMainX64` from the creation of the user task to the call of `Run`
  unfoldable pub start_user : Kernel → Fresh → Option Kernel
  unfolding new_user_task first_thread
  start_user k f = first_thread (new_user_task k f.task root) f false

  -- `AluxMainX64` from the construction of the scheduler to the call of `Run`
  unfoldable pub boot : Kernel → (collector user : Fresh) → Option Kernel
  unfolding construct start_user
  boot k collector user = do k' ← construct k collector; start_user k' user

module _ (L : LinkedList Garbage) (P : LinkedList ℕ) where
  -- `Run`: each CPU with the time at which it calls `Switch`, in the order in which they do.
  unfoldable pub run : Kernel → (ℕ → ℕ) → List (ℕ × ℕ) → Option Kernel
  run k scale [] = some k
  run k scale ((cpu, now) ∷ cpus) = switch L P k cpu now scale >>= λ r. run r.0 scale cpus
