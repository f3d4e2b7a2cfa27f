-- ===== src/Syscalls/Ports.antt =====
-- kernel/src/syscall/port.cpp: the bodies of the system calls inside their `HoldScope`; `th` is the
-- current thread.
use alux.Prelude.{
  ℕ, ◌%◌, ◌^◌, true, false, Option, none, some, if◌then◌else◌, LinkedList, IdMap, ◌>>=◌,
}
use alux.Kernel.{Kernel, Garbage, put_port}
use alux.Ipc.Ports as port_ends
use alux.Syscalls.Results.{Ret, empty, error, integer32, error_ports_list_full, error_no_port}
use alux.Threads.Ports.{new_port, add_to_thread, dealloc}

module _ (P : LinkedList ℕ) (M : IdMap) where
  -- `CreatePortSyscall`, with the address that `new` gives in `ThreadPort::New`
  unfoldable pub create_port : Kernel → (th addr : ℕ) → Kernel × Ret
  unfolding new_port
  create_port k th addr =
      let (k', added) = add_to_thread M (put_port k addr (new_port th)) addr in
      if added
      then (k', integer32 ((k'.ports addr).identifier % 2 ^ 32))
      else (dealloc M P k' addr false, error error_ports_list_full)

module _ (L : LinkedList Garbage) (P : LinkedList ℕ) (M : IdMap) where
  -- `DestroyPortSyscall`, with what `Find` of the thread's list of ports gives
  unfoldable pub destroy_port : Kernel → Option ℕ → Option (Kernel × Ret)
  destroy_port k none = some (k, error error_no_port)
  destroy_port k (some port) = do
    k' ← port_ends.sever L k port
    some (dealloc M P k' port true, empty)
