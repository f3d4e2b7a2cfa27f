-- ===== src/Tasks/Kinds.antt =====
-- kernel/src/tasks/user-task.cpp and kernel-task.cpp: the two classes of tasks.
use alux.Prelude.{ℕ, Bool, true, false, Option, none, some, List, [], LinkedList, IdMap, ◌>>=◌}
use alux.Kernel.{Kernel, Garbage, put_task, empty_task}
use alux.Tasks.Life as task_life
use alux.X64.Image.{Executable}
use alux.X64.Sectors.{ExecutableMap, Call, new_map, delete_map}

-- `class UserTask`, past its base class: the address of its memory map, and its executable map.
pub record UserTask : Type 0 where
  pub memory_map : ℕ
  pub executable_map : ExecutableMap

-- The class of a task
pub data Kind : Type 0 where
  kernel_task : Kind
  user_task : UserTask → Kind

-- `UserTask::UserTask`, past the constructor of `Task`, with the calls that `GenerateMap` makes
unfoldable pub new_user : Executable → ℕ → UserTask × List Call
new_user e map =
    let (m, calls) = new_map e in (record { memory_map = map; executable_map = m }, calls)

-- `IsUserTask`
unfoldable pub is_user_task : Kind → Bool
is_user_task kernel_task = false
is_user_task (user_task t) = true

-- `GetMemoryMap`, which is the global map for a kernel task
unfoldable pub get_memory_map : Kind → Option ℕ
get_memory_map kernel_task = none
get_memory_map (user_task t) = some t.memory_map

-- What a destructor deletes, in this order: a memory map, and what an executable map frees.
pub record Deletion : Type 0 where
  pub memory_map : Option ℕ
  pub executable_map : List Call

-- `UserTask::~UserTask`; a kernel task has no destructor of its own.
unfoldable pub destruct : Kind → Deletion
destruct kernel_task = record { memory_map = none; executable_map = [] }
destruct (user_task t) = record {
  memory_map = some t.memory_map;
  executable_map = delete_map t.executable_map;
}

module _ (L : LinkedList Garbage) (P : LinkedList ℕ) (M : IdMap) where
  -- `Dealloc` of either class; a deleted task reads as an empty one.
  unfoldable pub dealloc : Kernel → ℕ → Kind → Option (Kernel × Deletion)
  unfolding destruct
  dealloc k i kind =
      task_life.dealloc L P M k i >>= λ k'. some (put_task k' i empty_task, destruct kind)
