-- ===== src/Syscalls/Privileges.antt =====
-- Who may change memory by a system call, and what the attributes of a mapping become on the way.
use alux.Prelude.{
  ℕ, ◌^◌, ◌<◌, ◌≤◌, ◌≡◌, ◌≢◌, ◌⊎◌, refl, Bool, true, false, Option, none, some, [], LinkedList,
  IdMap, Returns, arith, ◌>>=◌,
}
use alux.Kernel.{Garbage}
use alux.Syscalls.Answers.{Kept, keeping-Kept, handle-eq}
use alux.Syscalls.Calls.{Request, uid_of, keeping, run, handle}
use alux.Tasks.HoldScope.{Cpu}
use alux.Tasks.Holding.{IsAlive}
use alux.Syscalls.Results.{
  Ret, empty, error, virt_size, Attributes, Machine, Outcome, Answer, error_permissions,
  error_index,
}
use alux.Syscalls.Handler.{Syscall, number_of, syscall_handler-number_of, returned}
use alux.Syscalls.Memory
use alux.Syscalls.Memory.{encode_attributes, decode_attributes, get_page_size, get_page_align}

-- The system calls of memory.cpp that begin with a test of the user.
pub data MemoryCall : Type 0 where
  allocate free vm_read vm_map vm_map_at vm_unmap vm_unmap_and_reserve vm_reserve vm_reserve_at
        vm_unreserve vm_rereserve :
      MemoryCall

abbrev pub body : MemoryCall → Machine → ℕ → Bool → (ℕ → ℕ) → Option Outcome
body allocate m uid is_user args = Memory.allocate m uid args
body free m uid is_user args = Memory.free uid args
body vm_read m uid is_user args = Memory.vm_read m uid is_user args
body vm_map m uid is_user args = Memory.vm_map m uid is_user args
body vm_map_at m uid is_user args = Memory.vm_map_at uid is_user args
body vm_unmap m uid is_user args = Memory.vm_unmap uid is_user args
body vm_unmap_and_reserve m uid is_user args = Memory.vm_unmap_and_reserve uid is_user args
body vm_reserve m uid is_user args = Memory.vm_reserve m uid is_user args
body vm_reserve_at m uid is_user args = Memory.vm_reserve_at uid is_user args
body vm_unreserve m uid is_user args = Memory.vm_unreserve uid is_user args
body vm_rereserve m uid is_user args = Memory.vm_rereserve uid is_user args

refused :
    (c : MemoryCall) (m : Machine) (uid : ℕ) (is_user : Bool) (args : ℕ → ℕ)
    → uid ≢ 0
    → body c m uid is_user args ≡ some (error error_permissions, [])
unfolding Memory.allocate Memory.free Memory.vm_read Memory.vm_map Memory.vm_map_at Memory.vm_unmap
    Memory.vm_unmap_and_reserve Memory.vm_reserve Memory.vm_reserve_at Memory.vm_unreserve
    Memory.vm_rereserve
refused allocate m uid is_user args h = ground arith
refused _ m uid is_user args h = ground arith

abbrev pub syscall_of : MemoryCall → Syscall
syscall_of allocate = Syscall.allocate
syscall_of free = Syscall.free
syscall_of vm_read = Syscall.vm_read
syscall_of vm_map = Syscall.vm_map
syscall_of vm_map_at = Syscall.vm_map_at
syscall_of vm_unmap = Syscall.vm_unmap
syscall_of vm_unmap_and_reserve = Syscall.vm_unmap_and_reserve
syscall_of vm_reserve = Syscall.vm_reserve
syscall_of vm_reserve_at = Syscall.vm_reserve_at
syscall_of vm_unreserve = Syscall.vm_unreserve
syscall_of vm_rereserve = Syscall.vm_rereserve

-- What the task is told of the error: nothing by `FreeSyscall`, whose result the handler drops.
abbrev pub told : MemoryCall → Ret
told free = empty
told _ = error error_permissions

run-syscall_of :
    (L : LinkedList Garbage) (P : LinkedList ℕ) (M : IdMap) (q : Request) (s : Cpu) (cpu : ℕ)
    (c : MemoryCall)
    → run L P M q s cpu (syscall_of c)
      ≡ keeping L s
          (s.kernel.current cpu)
          (λ scope k. body c q.machine (uid_of scope k) q.is_user q.args)
unfolding run
run-syscall_of L P M q s cpu allocate = refl
run-syscall_of L P M q s cpu _ = refl

returned-told :
    (c : MemoryCall) → returned (syscall_of c) (some (error error_permissions)) ≡ some (told c)
unfolding returned
returned-told allocate = refl
returned-told _ = refl

abbrev IsDenied : Outcome → Type 0
IsDenied o = (o.0 ≡ error error_permissions) × (o.1 ≡ [])

told-Kept :
    (s : Cpu) (c : MemoryCall) (m : Option Answer)
    → Returns m (Kept s IsDenied)
    → ◌>>=◌ {B = Answer} m (λ r. some (returned (syscall_of c) r.0, r.1))
      ≡ some (some (told c), (s, []))
told-Kept s c none w = absurd w
told-Kept s c (some (none, left)) w = absurd w
told-Kept s c (some (some r, (s', log))) w = rw (w.0, w.1.0, w.1.1, returned-told c) refl

-- A task of a user other than 0 that makes any of the eleven calls by which a task reads or changes its
-- memory map, or allocates or frees memory, gets the permission error, or from `FreeSyscall` an empty
-- result, without a call that touches memory, and the kernel is as it was. The thread is on a critical
-- CPU, and its task is alive, or held by the thread.
pub denied :
    (L : LinkedList Garbage) (P : LinkedList ℕ) (M : IdMap) (q : Request) (s : Cpu) (cpu th : ℕ)
    (c : MemoryCall)
    → s.critical ≡ true
    → s.kernel.current cpu ≡ some th
    → IsAlive s th
    → (s.kernel.tasks (s.kernel.threads th).task).uid ≢ 0
    → handle L P M q s cpu (number_of (syscall_of c)) ≡ some (some (told c), (s, []))
denied L P M q s cpu th c crit e v user =
    rw
      (
        handle-eq L P M q s cpu (number_of (syscall_of c)) crit,
        syscall_handler-number_of (run L P M q s cpu) (s, []) (syscall_of c),
        run-syscall_of L P M q s cpu c,
      )
      (told-Kept s c _ (
        keeping-Kept L s _ th IsDenied _ e v (λ scope k u.
          rw (refused c q.machine (uid_of scope k) q.is_user q.args (rw u user)) (refl, refl))))

-- `GetPageSize` and `GetPageAlign` answer exactly for the indices of page sizes; for any other `int`,
-- a negative one included, both give the index error.
pub page_index_checked :
    (m : Machine) (args : ℕ → ℕ)
    → m.page_size_count < 2 ^ 31
    → ((args 0 < m.page_size_count)
        × (get_page_size m args ≡ virt_size (m.page_size (args 0)))
        × (get_page_align m args ≡ virt_size (m.page_size_align (args 0))))
      ⊎ ((m.page_size_count ≤ args 0)
          × (get_page_size m args ≡ error error_index)
          × (get_page_align m args ≡ error error_index))
unfolding get_page_size get_page_align
page_index_checked m args small = ground arith

-- Attributes survive being handed to a task by `VMRead` and back by `VMMap`.
pub decode-encode : (a : Attributes) → decode_attributes (encode_attributes a) ≡ a
unfolding decode_attributes encode_attributes
decode-encode a = by_flags a.executable a.writable a.cachable
  where
    by_flags :
        (x w c : Bool)
        → let b : Attributes = record { executable = x; writable = w; cachable = c } in
          decode_attributes (encode_attributes b) ≡ b
    by_flags true true true = refl
    by_flags true true false = refl
    by_flags true false true = refl
    by_flags true false false = refl
    by_flags false true true = refl
    by_flags false true false = refl
    by_flags false false true = refl
    by_flags false false false = refl
