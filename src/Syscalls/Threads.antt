-- ===== src/Syscalls/Threads.antt =====
-- kernel/src/syscall/thread.cpp: the bodies of the system calls inside their `HoldScope`, and the
-- search of kernel/src/containers/retain-hash-map.hpp.
use alux.Prelude.{
  ℕ, ◌%◌, ◌^◌, ◌==◌, if◌then◌else◌, Option, none, some, List, [], ◌∷◌, LinkedList, IdMap, ◌>>=◌,
}
use alux.Kernel.{Kernel, Garbage}
use alux.Tasks.Stored
use alux.Threads.Counts.{retain, release}
use alux.Threads.Life.{create_thread, add_to_task, add_to_scheduler, dealloc}
use alux.Tasks.HoldScope
use alux.Tasks.HoldScope.{Cpu, Entry, entered, exited, construct}
use alux.Threads.Sleep.{Progress, sleep, sleep_infinite, unsleep}
use alux.Syscalls.Results.{Ret, empty, error, integer32, error_unable_to_launch, error_no_thread}

-- `RetainHashMap::Find` over the threads of a task
unfoldable pub find : Kernel → ℕ → List ℕ → Option (Kernel × Option ℕ)
find k ident [] = some (k, none)
find k ident (x ∷ xs) =
    let rest = find k ident xs in
    let hit = retain k x >>= λ r. some (r.0, if r.1 then some x else none) in
    if (k.threads x).identifier == ident then hit else rest

-- `GetThreadIdSyscall`
unfoldable pub get_thread_id : Kernel → ℕ → Ret
get_thread_id k th = integer32 ((k.threads th).identifier % 2 ^ 32)

-- `SleepSyscall` and `SleepInfiniteSyscall`, up to the release of the lock
unfoldable pub sleep_for : Kernel → ℕ → ℕ → (ℕ → ℕ) → (ℕ → ℕ) → Option (Kernel × Progress)
sleep_for k cpu now to_ticks args = sleep k cpu now to_ticks (args 0)

unfoldable pub sleep_for_ever : Kernel → ℕ → Option (Kernel × Progress)
sleep_for_ever k cpu = sleep_infinite k cpu

module _ (L : LinkedList Garbage) where
  unfoldable pub leave_thread : Entry → Option Cpu
  leave_thread (entered scope s) = HoldScope.exit_thread L scope s
  leave_thread (exited s) = some s

  -- `ExitThreadSyscall`; it does not come back.
  unfoldable pub exit_thread : Cpu → Option ℕ → Option Cpu
  unfolding leave_thread
  exit_thread s th = construct s th >>= leave_thread

  unfoldable pub woken : Kernel → Option ℕ → Option (Kernel × Ret)
  woken k none = some (k, error error_no_thread)
  woken k (some th) = do k' ← unsleep k th; k'' ← release L k' th; some (k'', empty)

  -- `WakeupSyscall`
  unfoldable pub wakeup : Kernel → ℕ → (ℕ → ℕ) → Option (Kernel × Ret)
  unfolding woken
  wakeup k task args = find k (args 0) (k.thread_lists task) >>= λ r. woken r.0 r.1

module _ (L : LinkedList Garbage) (P : LinkedList ℕ) (M : IdMap) where
  unfoldable pub refused : Kernel → ℕ → Option (Kernel × Ret)
  refused k th = do
    k1 ← release L k th
    k2 ← dealloc L P M k1 th
    some (k2, error error_unable_to_launch)

  unfoldable pub started : Kernel → ℕ → ℕ → Option (Kernel × Ret)
  started k th deadline = do
    k1 ← add_to_scheduler P k th deadline
    k2 ← release L k1 th
    some (k2, integer32 ((k2.threads th).identifier % 2 ^ 32))

  -- `LaunchThreadSyscall`
  unfoldable pub launch_thread : Kernel → ℕ → ℕ → ℕ → ℕ → Option (Kernel × Ret)
  unfolding create_thread refused started
  launch_thread k task addr ident deadline = do
    k1 ← create_thread (Stored.retain k task).0 task addr ident
    (k2, added) ← add_to_task M k1 addr
    if added then started k2 addr deadline else refused k2 addr
