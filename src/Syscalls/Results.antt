-- ===== src/Syscalls/Results.antt =====
-- kernel/src/syscall/errors.hpp, and what a system call is given and gives. Of `anarch`, which is not
-- in the repository, a machine holds what its functions answer; calls that change a memory map,
-- physical memory or the console are logged in their order.
use alux.Prelude.{ℕ, Bool, Option, none, some, List, [], LinkedList, ◌>>=◌}
use alux.Kernel.{Kernel, Garbage}
use alux.Tasks.HoldScope.{Cpu, HoldScope, Entry, entered, exited, construct, destroy}

abbrev pub error_permissions : ℕ
error_permissions = 1

abbrev pub error_index : ℕ
error_index = 2

abbrev pub error_no_memory : ℕ
error_no_memory = 3

abbrev pub error_no_mapping : ℕ
error_no_mapping = 4

abbrev pub error_no_vm_space : ℕ
error_no_vm_space = 5

abbrev pub error_unable_to_launch : ℕ
error_unable_to_launch = 6

abbrev pub error_no_thread : ℕ
error_no_thread = 7

abbrev pub error_ports_list_full : ℕ
error_ports_list_full = 8

abbrev pub error_no_port : ℕ
error_no_port = 9

-- `anarch::SyscallRet`, by the function that makes it.
pub data Ret : Type 0 where
  empty : Ret
  error integer integer32 integer64 phys virt virt_size : ℕ → Ret

-- `anarch::MemoryMap::Attributes`
pub record Attributes : Type 0 where
  pub executable : Bool
  pub writable : Bool
  pub cachable : Bool

-- `anarch::UserMap::Capabilities`
pub record Capabilities : Type 0 where
  pub placement_reserve : Bool
  pub placement_map : Bool
  pub executable_flag : Bool
  pub writable_flag : Bool
  pub cachable_flag : Bool

pub record Machine : Type 0 where
  pub page_size_count : ℕ
  pub page_size : ℕ → ℕ
  pub page_size_align : ℕ → ℕ
  pub capabilities : Capabilities
  -- `AllocPhys`, by size and alignment
  pub alloc_phys : ℕ → ℕ → Option ℕ
  -- `UserMap::Read`: the physical address, the attributes and the page size at an address
  pub read : ℕ → Option (ℕ × Attributes × ℕ)
  -- `UserMap::Map`, by physical address, page size, page count and attributes
  pub find_map : ℕ → ℕ → ℕ → Attributes → Option ℕ
  -- `UserMap::Reserve`, by page size and page count
  pub find_reserve : ℕ → ℕ → Option ℕ

pub data Effect : Type 0 where
  alloc_phys : (size align : ℕ) → Effect
  free_phys : (addr : ℕ) → Effect
  copy_from_kernel : (addr value : ℕ) → Effect
  map_found : (phys size count : ℕ) → Attributes → Effect
  map_at : (dest phys size count : ℕ) → Attributes → Effect
  unmap unmap_and_reserve unreserve reserve_at : (addr size count : ℕ) → Effect
  reserve_found : (size count : ℕ) → Effect
  rereserve : (addr size count new_size : ℕ) → Effect
  print_string : (bytes : List ℕ) → Effect
  set_color : (color : ℕ) → (bright : Bool) → Effect

abbrev pub Outcome : Type 0
Outcome = Ret × List Effect

-- What a system call leaves, with what it asked of memory and of the console; and its result, or none
-- where the thread does not come back from it, or not before it is woken.
abbrev pub Left : Type 0
Left = Cpu × List Effect

abbrev pub Answer : Type 0
Answer = Option Ret × Left

-- What a system call does in its `HoldScope`
abbrev pub Body : Type 0
Body = HoldScope → Kernel → Option (Kernel × Outcome)

-- The body of a system call between the constructor and the destructor of its `HoldScope`
unfoldable pub leave_scope : LinkedList Garbage → Body → Entry → Option Answer
leave_scope L body (exited s) = some (none, (s, []))
leave_scope L body (entered scope s) = do
  (k, (result, log)) ← body scope s.kernel
  some (some result, (destroy L scope (record s { kernel = k }), log))

unfoldable pub scoped : LinkedList Garbage → Cpu → Option ℕ → Body → Option Answer
unfolding leave_scope
scoped L s th body = construct s th >>= leave_scope L body
