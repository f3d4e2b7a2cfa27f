-- ===== src/Syscalls/Memory.antt =====
-- kernel/src/syscall/memory.cpp. `args n` is the value that the call's `n`-th `Pop` gives, from 0 on;
-- `uid` and `is_user` are those of the current task.
use alux.Prelude.{
  ℕ, ◌^◌, Bool, not, ◌||◌, leb, ◌==◌, if◌then◌else◌, Option, none, some, List, [], ◌∷◌, ◌++◌,
  ensure, ◌>>◌,
}
use Prim.Native.Nat.{bit_and, bit_or}
use alux.Syscalls.Results.{
  Ret, empty, error, integer, phys, virt, virt_size, Attributes, Machine, Effect, Outcome,
  error_permissions, error_index, error_no_memory, error_no_mapping, error_no_vm_space,
}

abbrev or_if : ℕ → Bool → ℕ → ℕ
or_if bit b res = if b then bit_or res bit else res

-- `EncodeAttributes`
unfoldable pub encode_attributes : Attributes → ℕ
encode_attributes a = or_if 4 a.cachable (or_if 2 a.writable (or_if 1 a.executable 0))

-- `DecodeAttributes`
unfoldable pub decode_attributes : ℕ → Attributes
decode_attributes arg = record {
  executable = not (bit_and arg 1 == 0);
  writable = not (bit_and arg 2 == 0);
  cachable = not (bit_and arg 4 == 0);
}

-- `idx < 0 || idx >= GetPageSizeCount()` on an `int`
abbrev bad_index : Machine → ℕ → Bool
bad_index m idx = leb (2 ^ 31) idx || leb m.page_size_count idx

-- `CountPageSizesSyscall`
unfoldable pub count_page_sizes : Machine → Ret
count_page_sizes m = integer m.page_size_count

-- `GetPageSizeSyscall`
unfoldable pub get_page_size : Machine → (ℕ → ℕ) → Ret
get_page_size m args =
    if bad_index m (args 0) then error error_index else virt_size (m.page_size (args 0))

-- `GetPageAlignSyscall`
unfoldable pub get_page_align : Machine → (ℕ → ℕ) → Ret
get_page_align m args =
    if bad_index m (args 0) then error error_index else virt_size (m.page_size_align (args 0))

-- `GetVMCapabilitiesSyscall`
unfoldable pub get_vm_capabilities : Machine → Ret
get_vm_capabilities m =
    let c = m.capabilities in
    integer (
      or_if 0x10 c.cachable_flag (
        or_if 8 c.writable_flag
          (or_if 4 c.executable_flag (or_if 2 c.placement_map (or_if 1 c.placement_reserve 0)))))

-- The test of the user with which the other system calls begin.
abbrev if_root : ℕ → Option Outcome → Option Outcome
if_root uid body = if not (uid == 0) then some (error error_permissions, []) else body

-- `if (p) map.CopyFromKernel(p, &value, sizeof(value))`
copy_out : ℕ → ℕ → List Effect
copy_out p value = if p == 0 then [] else Effect.copy_from_kernel p value ∷ []

allocated : Option ℕ → Ret
allocated none = error error_no_memory
allocated (some a) = phys a

placed : Option ℕ → Ret
placed none = error error_no_vm_space
placed (some a) = virt a

read_result : Option (ℕ × Attributes × ℕ) → (ℕ → ℕ) → Outcome
unfolding copy_out encode_attributes
read_result none args = (error error_no_mapping, [])
read_result (some (result1, attributes, result2)) args =
    (integer (encode_attributes attributes), copy_out (args 0) result1 ++ copy_out (args 1) result2)

-- `AllocateSyscall`
unfoldable pub allocate : Machine → ℕ → (ℕ → ℕ) → Option Outcome
unfolding allocated
allocate m uid args =
    if_root uid
      (some (allocated (m.alloc_phys (args 0) (args 1)), Effect.alloc_phys (args 0) (args 1) ∷ []))

-- `FreeSyscall`
unfoldable pub free : ℕ → (ℕ → ℕ) → Option Outcome
free uid args = if_root uid (some (empty, Effect.free_phys (args 0) ∷ []))

-- `VMReadSyscall`
unfoldable pub vm_read : Machine → ℕ → Bool → (ℕ → ℕ) → Option Outcome
unfolding read_result
vm_read m uid is_user args =
    if_root uid (ensure is_user >> some (read_result (m.read (args 2)) args))

-- `VMMapSyscall`
unfoldable pub vm_map : Machine → ℕ → Bool → (ℕ → ℕ) → Option Outcome
unfolding placed decode_attributes
vm_map m uid is_user args =
    let attrs = decode_attributes (args 3) in
    if_root uid (
      ensure is_user
      >> some (
        placed (m.find_map (args 0) (args 1) (args 2) attrs),
        Effect.map_found (args 0) (args 1) (args 2) attrs ∷ [],
      ))

-- `VMMapAtSyscall`
unfoldable pub vm_map_at : ℕ → Bool → (ℕ → ℕ) → Option Outcome
unfolding decode_attributes
vm_map_at uid is_user args =
    let attrs = decode_attributes (args 4) in
    if_root uid
      (ensure is_user >> some (empty, Effect.map_at (args 0) (args 1) (args 2) (args 3) attrs ∷ []))

-- `VMUnmapSyscall`
unfoldable pub vm_unmap : ℕ → Bool → (ℕ → ℕ) → Option Outcome
vm_unmap uid is_user args =
    if_root uid (ensure is_user >> some (empty, Effect.unmap (args 0) (args 1) (args 2) ∷ []))

-- `VMUnmapAndReserveSyscall`
unfoldable pub vm_unmap_and_reserve : ℕ → Bool → (ℕ → ℕ) → Option Outcome
vm_unmap_and_reserve uid is_user args =
    if_root uid
      (ensure is_user >> some (empty, Effect.unmap_and_reserve (args 0) (args 1) (args 2) ∷ []))

-- `VMReserveSyscall`
unfoldable pub vm_reserve : Machine → ℕ → Bool → (ℕ → ℕ) → Option Outcome
unfolding placed
vm_reserve m uid is_user args = if_root uid (
    ensure is_user
    >> some
        (placed (m.find_reserve (args 0) (args 1)), Effect.reserve_found (args 0) (args 1) ∷ []))

-- `VMReserveAtSyscall`
unfoldable pub vm_reserve_at : ℕ → Bool → (ℕ → ℕ) → Option Outcome
vm_reserve_at uid is_user args =
    if_root uid (ensure is_user >> some (empty, Effect.reserve_at (args 0) (args 1) (args 2) ∷ []))

-- `VMUnreserveSyscall`
unfoldable pub vm_unreserve : ℕ → Bool → (ℕ → ℕ) → Option Outcome
vm_unreserve uid is_user args =
    if_root uid (ensure is_user >> some (empty, Effect.unreserve (args 0) (args 1) (args 2) ∷ []))

-- `VMRereserveSyscall`
unfoldable pub vm_rereserve : ℕ → Bool → (ℕ → ℕ) → Option Outcome
vm_rereserve uid is_user args =
    if_root uid
      (ensure is_user >> some (empty, Effect.rereserve (args 0) (args 1) (args 2) (args 3) ∷ []))
