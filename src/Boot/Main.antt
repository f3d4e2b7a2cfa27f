-- ===== src/Boot/Main.antt =====
-- `AluxMainX64` of kernel/src/arch/x64/main.cpp.
use alux.Prelude.{ℕ, Option, some, List, LinkedList, IdMap, ◌>>=◌}
use alux.Boot.Start.{Fresh, construct, start_user}
use alux.Kernel.{Kernel, Garbage}
use alux.Tasks.Kinds.{UserTask, new_user}
use alux.X64.Image.{new_image, get_program_end, new_executable}
use alux.X64.Sectors.{Call, get_entry_point}

-- What is there when `AluxMainX64` calls `Run`: the kernel, the end of the memory that no allocator
-- may give away, the first user task and the address at which its thread begins.
pub record Started : Type 0 where
  pub kernel : Kernel
  pub reserved : ℕ
  pub user_task : UserTask
  pub entry : ℕ
  pub calls : List Call

module _ (L : LinkedList Garbage) (P : LinkedList ℕ) (T M : IdMap) where
  -- `AluxMainX64` up to the call of `Run`, given the two words that the boot loader leaves and the
  -- address of the memory map that `UserMap::New` gives
  unfoldable pub alux_main :
      (end_word size_word map : ℕ) → Kernel → (collector user : Fresh) → Option Started
  alux_main end_word size_word map k collector user = do
    let image = new_image end_word size_word
    k1 ← construct L P T M k collector
    exec ← new_executable image.program_start image.program_size
    let (user_task, calls) = new_user exec map
    k2 ← start_user L P T M k1 user
    some (record {
      kernel = k2;
      reserved = get_program_end image;
      user_task = user_task;
      entry = get_entry_point user_task.executable_map;
      calls = calls;
    })
