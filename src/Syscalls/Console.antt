-- ===== src/Syscalls/Console.antt =====
-- kernel/src/syscall/console.cpp, kernel/src/syscall/time.cpp, and what kernel/src/syscall/task.cpp
-- answers. `read` gives the byte that `CopyToKernel` copies from a user's address.
use alux.Prelude.{
  ℕ, zero, suc, ◌+◌, ◌*◌, ◌%◌, ◌^◌, u64, Bool, ◌==◌, if◌then◌else◌, Option, none, some, List, [],
  ◌∷◌, LinkedList, ◌>>=◌,
}
use alux.Kernel.{Kernel, Garbage}
use alux.Syscalls.Results.{Ret, integer32, integer64}
use alux.Tasks.HoldScope.{Cpu, Entry, entered, exited, construct, exit_task}
use alux.Tasks.Task.{kill_reason_abort, kill_reason_normal}
use alux.Threads.Access.{get_task}

-- The loop of `PrintSyscall`: what goes to the console, byte by byte. The number bounds the rounds.
unfoldable pub print : ℕ → (ℕ → ℕ) → ℕ → Option (List ℕ)
print zero read addr = none
print (suc rounds) read addr =
    let rest = print rounds read (u64 (addr + 1)) >>= λ bs. some (read addr ∷ bs) in
    if read addr == 0 then some [] else rest

-- `SetColorSyscall`: the color and the brightness, where the color is the `int` that is popped
unfoldable pub set_color : ℕ → Bool → ℕ × Bool
set_color arg bright = (arg % 8, bright)

-- `GetNanoTimeSyscall`, where `to_micros` is the `ScaleInteger` of the clock
unfoldable pub get_nano_time : ℕ → (ℕ → ℕ) → Ret
get_nano_time ticks to_micros = integer64 (u64 (to_micros ticks * 1000))

-- `GetPidSyscall` and `GetUidSyscall`, on the current thread
unfoldable pub get_pid : Kernel → ℕ → Option Ret
unfolding get_task
get_pid k th = do task ← get_task k th; some (integer32 ((k.tasks task).identifier % 2 ^ 32))

unfoldable pub get_uid : Kernel → ℕ → Option Ret
unfolding get_task
get_uid k th = do task ← get_task k th; some (integer32 ((k.tasks task).uid % 2 ^ 32))

module _ (L : LinkedList Garbage) where
  unfoldable pub leave : ℕ → Entry → Option Cpu
  leave status (entered scope s) = exit_task L scope status s
  leave status (exited s) = some s

  -- `ExitSyscall`; it does not come back.
  unfoldable pub exit : Cpu → Option ℕ → Bool → Option Cpu
  unfolding leave
  exit s th aborted =
      construct s th >>= leave (if aborted then kill_reason_abort else kill_reason_normal)
