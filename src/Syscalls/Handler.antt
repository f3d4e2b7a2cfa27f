-- ===== src/Syscalls/Handler.antt =====
-- kernel/src/syscall/handler.cpp.
use alux.Prelude.{
  ◌≤◌, ◌≡◌, refl, length, arith, ℕ, zero, suc, Bool, true, false, if◌then◌else◌, Option, none, some,
  List, [], ◌∷◌, ◌>>=◌,
}
use alux.Syscalls.Results.{Ret, empty}

-- The system calls, in the order of their numbers.
pub data Syscall : Type 0 where
  print exit get_pid get_uid count_page_sizes get_page_size get_page_align get_vm_capabilities
        allocate free get_nano_time vm_read vm_map vm_map_at vm_unmap vm_unmap_and_reserve
        vm_reserve vm_reserve_at vm_unreserve vm_rereserve exit_thread get_thread_id launch_thread
        sleep sleep_infinite wakeup set_color create_port destroy_port :
      Syscall

abbrev table : List Syscall
table =
    print ∷ exit ∷ get_pid ∷ get_uid ∷ count_page_sizes ∷ get_page_size ∷ get_page_align
    ∷ get_vm_capabilities ∷ allocate ∷ free ∷ get_nano_time ∷ vm_read ∷ vm_map ∷ vm_map_at
    ∷ vm_unmap ∷ vm_unmap_and_reserve ∷ vm_reserve ∷ vm_reserve_at ∷ vm_unreserve ∷ vm_rereserve
    ∷ exit_thread ∷ get_thread_id ∷ launch_thread ∷ sleep ∷ sleep_infinite ∷ wakeup ∷ set_color
    ∷ create_port ∷ destroy_port ∷ []

pub nth : List Syscall → ℕ → Option Syscall
nth [] n = none
nth (c ∷ cs) zero = some c
nth (c ∷ cs) (suc n) = nth cs n

-- The `case` of a number; none is the `default`.
unfoldable pub case_of : ℕ → Option Syscall
unfolding nth
case_of number = nth table number

-- The calls after which the handler breaks from its `switch`, and returns an empty result.
abbrev pub is_dropped : Syscall → Bool
is_dropped print = true
is_dropped exit = true
is_dropped free = true
is_dropped exit_thread = true
is_dropped sleep = true
is_dropped sleep_infinite = true
is_dropped set_color = true
is_dropped _ = false

unfoldable pub returned : Syscall → Option Ret → Option Ret
returned c none = none
returned c (some r) = some (if is_dropped c then empty else r)

-- `SyscallHandler`, where `run` gives what each call returns, none where the thread does not come back
-- from it, and the state that it leaves.
unfoldable pub syscall_handler :
    {S : Type 0} → (Syscall → Option (Option Ret × S)) → S → ℕ → Option (Option Ret × S)
unfolding case_of returned
syscall_handler run s number = elim (case_of number) [
  | none ↦ some (some empty, s)
  | some c ↦ run c >>= λ r. some (returned c r.0, r.1)
]

-- The number of a system call.
abbrev pub number_of : Syscall → ℕ
number_of print = 0
number_of exit = 1
number_of get_pid = 2
number_of get_uid = 3
number_of count_page_sizes = 4
number_of get_page_size = 5
number_of get_page_align = 6
number_of get_vm_capabilities = 7
number_of allocate = 8
number_of free = 9
number_of get_nano_time = 10
number_of vm_read = 11
number_of vm_map = 12
number_of vm_map_at = 13
number_of vm_unmap = 14
number_of vm_unmap_and_reserve = 15
number_of vm_reserve = 16
number_of vm_reserve_at = 17
number_of vm_unreserve = 18
number_of vm_rereserve = 19
number_of exit_thread = 20
number_of get_thread_id = 21
number_of launch_thread = 22
number_of sleep = 23
number_of sleep_infinite = 24
number_of wakeup = 25
number_of set_color = 26
number_of create_port = 27
number_of destroy_port = 28

case_of-number_of : (c : Syscall) → case_of (number_of c) ≡ some c
unfolding case_of
case_of-number_of print = refl
case_of-number_of _ = refl

nth_past : (cs : List Syscall) (n : ℕ) → length cs ≤ n → nth cs n ≡ none
unfolding nth
nth_past [] n h = refl
nth_past (c ∷ cs) zero h = absurd (omega arith)
nth_past (c ∷ cs) (suc n) h = nth_past cs n (omega arith)

-- The handler runs the call that has the number.
pub syscall_handler-number_of :
    {S : Type 0} (run : Syscall → Option (Option Ret × S)) (s : S) (c : Syscall)
    → syscall_handler run s (number_of c) ≡ (run c >>= λ r. some (returned c r.0, r.1))
unfolding syscall_handler
syscall_handler-number_of run s c = rw (case_of-number_of c, syscall_handler) refl

-- It does nothing for a number from 29 on.
pub syscall_handler_past :
    {S : Type 0} (run : Syscall → Option (Option Ret × S)) (s : S) (number : ℕ)
    → 29 ≤ number
    → syscall_handler run s number ≡ some (some empty, s)
unfolding syscall_handler case_of
syscall_handler_past run s number h = rw (nth_past table number h, syscall_handler) refl
