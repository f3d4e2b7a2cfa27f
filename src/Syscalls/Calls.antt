-- ===== src/Syscalls/Calls.antt =====
-- The system calls of kernel/src/syscall on one kernel, with the scopes that they enter.
use alux.Prelude.{
  ℕ, Bool, not, ◌==◌, Option, none, some, List, [], ◌∷◌, LinkedList, IdMap, ensure, ◌>>=◌, ◌>>◌,
}
use alux.Kernel.{Kernel, Garbage}
use alux.Syscalls.Console
use alux.Syscalls.Handler.{Syscall, syscall_handler}
use alux.Syscalls.Memory
use alux.Syscalls.Ports
use alux.Syscalls.Results.{Ret, empty, Machine, Effect, Outcome, Answer, scoped}
use alux.Syscalls.Threads
use alux.Tasks.HoldScope.{Cpu, HoldScope}
use alux.Threads.Sleep.{Progress, returned, suspended}

-- What a system call is given: the values that it pops, in their order, and what the parts of the
-- kernel answer that are not in the repository.
pub record Request : Type 0 where
  pub args : ℕ → ℕ
  pub machine : Machine
  -- Whether the current task is a user task
  pub is_user : Bool
  -- The bytes in the memory of the task, and a bound on the length of a string there
  pub bytes : ℕ → ℕ
  pub rounds : ℕ
  -- The clock, with the `ScaleInteger` of its microseconds per tick and of its ticks per microsecond
  pub now : ℕ
  pub to_micros : ℕ → ℕ
  pub to_ticks : ℕ → ℕ
  -- The address that `new` gives, and the fields there that no constructor sets
  pub addr : ℕ
  pub identifier : ℕ
  pub deadline : ℕ
  -- What `Find` of the thread's list of ports gives
  pub found : Option ℕ

-- `PopBool`
abbrev flag : ℕ → Bool
flag n = not (n == 0)

-- A call that enters no scope and leaves the kernel as it is
abbrev answer : Cpu → List Effect → Ret → Option Answer
answer s log r = some (some r, (s, log))

-- A call that enters a scope and leaves the kernel's own objects as they are there
unfoldable pub keeping :
    LinkedList Garbage → Cpu → Option ℕ → (HoldScope → Kernel → Option Outcome) → Option Answer
keeping L s th body = scoped L s th (λ scope k. body scope k >>= λ o. some (k, o))

-- A call that enters a scope and changes them
abbrev changing :
    LinkedList Garbage
    → Cpu
    → Option ℕ
    → (HoldScope → Kernel → Option (Kernel × Ret))
    → Option Answer
changing L s th body = scoped L s th (λ scope k. body scope k >>= λ r. some (r.0, (r.1, [])))

-- A call of which the thread does not come back
abbrev gone : Option Cpu → Option Answer
gone m = m >>= λ s. some (none, (s, []))

unfoldable pub slept : Cpu → Kernel × Progress → Answer
slept s (k, returned) = (some empty, (record s { kernel = k }, []))
slept s (k, suspended) = (none, (record s { kernel = k }, []))

abbrev pub uid_of : HoldScope → Kernel → ℕ
uid_of scope k = (k.tasks scope.task).uid

-- `PrintSyscall`
unfoldable pub print : Request → HoldScope → Kernel → Option Outcome
print q scope k =
    ensure q.is_user
    >> (Console.print q.rounds q.bytes (q.args 0) >>= λ bs.
        some (empty, Effect.print_string bs ∷ []))

module _ (L : LinkedList Garbage) (P : LinkedList ℕ) (M : IdMap) where
  -- What each call does when the thread of a CPU makes it.
  unfoldable pub run : Request → Cpu → ℕ → Syscall → Option Answer
  unfolding slept
  run q s cpu Syscall.print = keeping L s (s.kernel.current cpu) (print q)
  run q s cpu Syscall.exit = gone (Console.exit L s (s.kernel.current cpu) (flag (q.args 0)))
  run q s cpu Syscall.get_pid =
      s.kernel.current cpu >>= λ th. Console.get_pid s.kernel th >>= answer s []
  run q s cpu Syscall.get_uid =
      s.kernel.current cpu >>= λ th. Console.get_uid s.kernel th >>= answer s []
  run q s cpu Syscall.count_page_sizes = answer s [] (Memory.count_page_sizes q.machine)
  run q s cpu Syscall.get_page_size = answer s [] (Memory.get_page_size q.machine q.args)
  run q s cpu Syscall.get_page_align = answer s [] (Memory.get_page_align q.machine q.args)
  run q s cpu Syscall.get_vm_capabilities = answer s [] (Memory.get_vm_capabilities q.machine)
  run q s cpu Syscall.allocate =
      keeping L s (s.kernel.current cpu)
        λ scope k. Memory.allocate q.machine (uid_of scope k) q.args
  run q s cpu Syscall.free =
      keeping L s (s.kernel.current cpu) λ scope k. Memory.free (uid_of scope k) q.args
  run q s cpu Syscall.get_nano_time = answer s [] (Console.get_nano_time q.now q.to_micros)
  run q s cpu Syscall.vm_read =
      keeping L s (s.kernel.current cpu)
        λ scope k. Memory.vm_read q.machine (uid_of scope k) q.is_user q.args
  run q s cpu Syscall.vm_map =
      keeping L s (s.kernel.current cpu)
        λ scope k. Memory.vm_map q.machine (uid_of scope k) q.is_user q.args
  run q s cpu Syscall.vm_map_at =
      keeping L s (s.kernel.current cpu)
        λ scope k. Memory.vm_map_at (uid_of scope k) q.is_user q.args
  run q s cpu Syscall.vm_unmap =
      keeping L s (s.kernel.current cpu)
        λ scope k. Memory.vm_unmap (uid_of scope k) q.is_user q.args
  run q s cpu Syscall.vm_unmap_and_reserve =
      keeping L s (s.kernel.current cpu)
        λ scope k. Memory.vm_unmap_and_reserve (uid_of scope k) q.is_user q.args
  run q s cpu Syscall.vm_reserve =
      keeping L s (s.kernel.current cpu)
        λ scope k. Memory.vm_reserve q.machine (uid_of scope k) q.is_user q.args
  run q s cpu Syscall.vm_reserve_at =
      keeping L s (s.kernel.current cpu)
        λ scope k. Memory.vm_reserve_at (uid_of scope k) q.is_user q.args
  run q s cpu Syscall.vm_unreserve =
      keeping L s (s.kernel.current cpu)
        λ scope k. Memory.vm_unreserve (uid_of scope k) q.is_user q.args
  run q s cpu Syscall.vm_rereserve =
      keeping L s (s.kernel.current cpu)
        λ scope k. Memory.vm_rereserve (uid_of scope k) q.is_user q.args
  run q s cpu Syscall.exit_thread = gone (Threads.exit_thread L s (s.kernel.current cpu))
  run q s cpu Syscall.get_thread_id =
      keeping L s (s.kernel.current cpu) λ scope k. some (Threads.get_thread_id k scope.thread, [])
  run q s cpu Syscall.launch_thread =
      changing L s (s.kernel.current cpu)
        λ scope k. Threads.launch_thread L P M k scope.task q.addr q.identifier q.deadline
  run q s cpu Syscall.sleep =
      Threads.sleep_for s.kernel cpu q.now q.to_ticks q.args >>= λ r. some (slept s r)
  run q s cpu Syscall.sleep_infinite = Threads.sleep_for_ever s.kernel cpu >>= λ r. some (slept s r)
  run q s cpu Syscall.wakeup =
      changing L s (s.kernel.current cpu) λ scope k. Threads.wakeup L k scope.task q.args
  run q s cpu Syscall.set_color =
      let (color, bright) = Console.set_color (q.args 0) (flag (q.args 1)) in
      answer s (Effect.set_color color bright ∷ []) empty
  run q s cpu Syscall.create_port =
      changing L s (s.kernel.current cpu)
        λ scope k. some (Ports.create_port P M k scope.thread q.addr)
  run q s cpu Syscall.destroy_port =
      changing L s (s.kernel.current cpu) λ scope k. Ports.destroy_port L P M k q.found

  -- `SyscallHandler`, for the thread that a CPU runs; critical, it asserts.
  unfoldable pub handle : Request → Cpu → ℕ → (number : ℕ) → Option Answer
  handle q s cpu number = ensure s.critical >> syscall_handler (run q s cpu) (s, []) number
