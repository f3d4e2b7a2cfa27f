-- ===== src/Syscalls/Quiet.antt =====
-- What the system calls answer that leave the kernel's own objects as they are.
use alux.Prelude.{
  ℕ, ◌+◌, ◌^◌, ◌≤◌, ◌<◌, ◌≡◌, ◌≢◌, ◌==◌, ◌||◌, ltb, u64, refl, Bool, true, false, if◌then◌else◌,
  Option, none, some, [], LinkedList, IdMap, Returns, Returns-mono, arith, ◌>>=◌,
}
use alux.Kernel.{Kernel, Garbage}
use alux.Syscalls.Answers.{Kept, keeping-Kept, handle-eq}
use alux.Syscalls.Calls.{Request, uid_of, keeping, print, run, handle}
use alux.Syscalls.Console
use alux.Syscalls.Handler.{
  Syscall, number_of, is_dropped, returned, syscall_handler-number_of, syscall_handler_past,
}
use alux.Syscalls.Memory
use alux.Syscalls.Threads
use alux.Syscalls.Printing.{print-bytes}
use alux.Syscalls.Results.{
  Ret, empty, error, integer, integer32, integer64, phys, virt, virt_size, Answer, Outcome,
  error_permissions, error_index, error_no_memory, error_no_mapping, error_no_vm_space,
}
use alux.Tasks.HoldScope.{Cpu, HoldScope}
use alux.Tasks.Holding.{IsAlive}
use alux.Threads.Access.{get_task}

-- The calls that leave the kernel's own objects as they are; none is a number that is unknown.
abbrev pub is_quiet : Option Syscall → Bool
is_quiet (some Syscall.exit) = false
is_quiet (some Syscall.exit_thread) = false
is_quiet (some Syscall.launch_thread) = false
is_quiet (some Syscall.sleep) = false
is_quiet (some Syscall.sleep_infinite) = false
is_quiet (some Syscall.wakeup) = false
is_quiet (some Syscall.create_port) = false
is_quiet (some Syscall.destroy_port) = false
is_quiet _ = true

abbrev is_empty : Ret → Bool
is_empty empty = true
is_empty _ = false

abbrev is_error : ℕ → Ret → Bool
is_error code (error e) = e == code
is_error code _ = false

abbrev is_integer : ℕ → Ret → Bool
is_integer bound (integer n) = ltb n bound
is_integer bound _ = false

abbrev is_integer32 : Ret → Bool
is_integer32 (integer32 n) = ltb n (2 ^ 32)
is_integer32 _ = false

abbrev is_integer64 : Ret → Bool
is_integer64 (integer64 n) = ltb n (2 ^ 64)
is_integer64 _ = false

abbrev is_phys : Ret → Bool
is_phys (phys a) = true
is_phys _ = false

abbrev is_virt : Ret → Bool
is_virt (virt a) = true
is_virt _ = false

abbrev is_virt_size : Ret → Bool
is_virt_size (virt_size n) = true
is_virt_size _ = false

-- The forms that the result of a quiet call has.
abbrev pub fits : Request → Option Syscall → Ret → Bool
fits q (some Syscall.get_pid) r = is_integer32 r
fits q (some Syscall.get_uid) r = is_integer32 r
fits q (some Syscall.get_thread_id) r = is_integer32 r
fits q (some Syscall.get_nano_time) r = is_integer64 r
fits q (some Syscall.count_page_sizes) r = is_integer (q.machine.page_size_count + 1) r
fits q (some Syscall.get_vm_capabilities) r = is_integer 32 r
fits q (some Syscall.get_page_size) r = is_virt_size r || is_error error_index r
fits q (some Syscall.get_page_align) r = is_virt_size r || is_error error_index r
fits q (some Syscall.allocate) r =
    is_phys r || is_error error_permissions r || is_error error_no_memory r
fits q (some Syscall.vm_read) r =
    is_integer 8 r || is_error error_permissions r || is_error error_no_mapping r
fits q (some Syscall.vm_map) r =
    is_virt r || is_error error_permissions r || is_error error_no_vm_space r
fits q (some Syscall.vm_reserve) r =
    is_virt r || is_error error_permissions r || is_error error_no_vm_space r
fits q (some Syscall.vm_map_at) r = is_empty r || is_error error_permissions r
fits q (some Syscall.vm_unmap) r = is_empty r || is_error error_permissions r
fits q (some Syscall.vm_unmap_and_reserve) r = is_empty r || is_error error_permissions r
fits q (some Syscall.vm_reserve_at) r = is_empty r || is_error error_permissions r
fits q (some Syscall.vm_unreserve) r = is_empty r || is_error error_permissions r
fits q (some Syscall.vm_rereserve) r = is_empty r || is_error error_permissions r
fits q _ r = is_empty r

abbrev pub HasForm : Request → Syscall → Outcome → Type 0
HasForm q c o = fits q (some c) (if is_dropped c then empty else o.0) ≡ true

-- A request of a user task, whose string, if it prints one, has an end.
pub record IsServed (q : Request) : Type 0 where
  pub user : q.is_user ≡ true
  pub length : ℕ
  pub address : q.args 0 < 2 ^ 64
  pub within : length < q.rounds
  pub more : (i : ℕ) → i < length → q.bytes (u64 (q.args 0 + i)) ≢ 0
  pub end : q.bytes (u64 (q.args 0 + length)) ≡ 0

vm_read-fits :
    (q : Request) (uid : ℕ)
    → q.is_user ≡ true
    → Returns (Memory.vm_read q.machine uid q.is_user q.args) (HasForm q Syscall.vm_read)
unfolding Memory.vm_read Memory.encode_attributes
vm_read-fits q uid h = ground arith

print-HasForm :
    (q : Request) (scope : HoldScope) (k : Kernel)
    → IsServed q
    → Returns (print q scope k) (HasForm q Syscall.print)
unfolding print
print-HasForm q scope k w =
    rw (w.user, print-bytes q.rounds q.bytes (q.args 0) w.length w.address w.within w.more w.end)
      refl

-- A quiet call either enters no scope, and comes back to the state in which it was made, or does no
-- more in its scope than a body that returns. Whatever holds after both holds after the call.
pub run-quiet :
    (L : LinkedList Garbage) (P : LinkedList ℕ) (M : IdMap) (q : Request) (s : Cpu) (cpu th : ℕ)
    (F : Answer → Type 0) (c : Syscall)
    → s.kernel.current cpu ≡ some th
    → (s.kernel.threads th).in_task ≡ true
    → IsServed q
    → is_quiet (some c) ≡ true
    → ((a : Answer) → Kept s (HasForm q c) a → F a)
    → ((body : HoldScope → Kernel → Option Outcome)
        → ((scope : HoldScope) (k : Kernel) → Returns (body scope k) (HasForm q c))
        → Returns (keeping L s (s.kernel.current cpu) body) F)
    → Returns (run L P M q s cpu c) F
unfolding run Memory.get_vm_capabilities Memory.allocate Memory.free Memory.vm_map Memory.vm_map_at
    Memory.vm_unmap Memory.vm_unmap_and_reserve Memory.vm_reserve Memory.vm_reserve_at
    Memory.vm_unreserve Memory.vm_rereserve Memory.count_page_sizes Memory.get_page_size
    Memory.get_page_align Console.get_nano_time Console.get_pid Console.get_uid Console.set_color
    Threads.get_thread_id get_task
run-quiet L P M q s cpu th F Syscall.print e v w h back inside =
    inside _ (λ scope k. print-HasForm q scope k w)
run-quiet L P M q s cpu th F Syscall.get_pid e v w h back inside =
    Returns-mono (Kept s (HasForm q Syscall.get_pid)) F (run L P M q s cpu Syscall.get_pid)
      (ground (arith, e, v)) back
run-quiet L P M q s cpu th F Syscall.get_uid e v w h back inside =
    Returns-mono (Kept s (HasForm q Syscall.get_uid)) F (run L P M q s cpu Syscall.get_uid)
      (ground (arith, e, v)) back
run-quiet L P M q s cpu th F Syscall.count_page_sizes e v w h back inside =
    Returns-mono (Kept s (HasForm q Syscall.count_page_sizes)) F
      (run L P M q s cpu Syscall.count_page_sizes) (ground arith) back
run-quiet L P M q s cpu th F Syscall.get_page_size e v w h back inside =
    Returns-mono (Kept s (HasForm q Syscall.get_page_size)) F
      (run L P M q s cpu Syscall.get_page_size) (ground arith) back
run-quiet L P M q s cpu th F Syscall.get_page_align e v w h back inside =
    Returns-mono (Kept s (HasForm q Syscall.get_page_align)) F
      (run L P M q s cpu Syscall.get_page_align) (ground arith) back
run-quiet L P M q s cpu th F Syscall.get_vm_capabilities e v w h back inside =
    Returns-mono (Kept s (HasForm q Syscall.get_vm_capabilities)) F
      (run L P M q s cpu Syscall.get_vm_capabilities) (ground arith) back
run-quiet L P M q s cpu th F Syscall.get_nano_time e v w h back inside =
    Returns-mono (Kept s (HasForm q Syscall.get_nano_time)) F
      (run L P M q s cpu Syscall.get_nano_time) (ground arith) back
run-quiet L P M q s cpu th F Syscall.set_color e v w h back inside =
    Returns-mono (Kept s (HasForm q Syscall.set_color)) F (run L P M q s cpu Syscall.set_color)
      (ground arith) back
run-quiet L P M q s cpu th F Syscall.get_thread_id e v w h back inside =
    inside _ (λ scope k. ground (arith, w.user))
run-quiet L P M q s cpu th F Syscall.allocate e v w h back inside =
    inside _ (λ scope k. ground (arith, w.user))
run-quiet L P M q s cpu th F Syscall.free e v w h back inside =
    inside _ (λ scope k. ground (arith, w.user))
run-quiet L P M q s cpu th F Syscall.vm_read e v w h back inside =
    inside _ (λ scope k. vm_read-fits q (uid_of scope k) w.user)
run-quiet L P M q s cpu th F Syscall.vm_map e v w h back inside =
    inside _ (λ scope k. ground (arith, w.user))
run-quiet L P M q s cpu th F Syscall.vm_map_at e v w h back inside =
    inside _ (λ scope k. ground (arith, w.user))
run-quiet L P M q s cpu th F Syscall.vm_unmap e v w h back inside =
    inside _ (λ scope k. ground (arith, w.user))
run-quiet L P M q s cpu th F Syscall.vm_unmap_and_reserve e v w h back inside =
    inside _ (λ scope k. ground (arith, w.user))
run-quiet L P M q s cpu th F Syscall.vm_reserve e v w h back inside =
    inside _ (λ scope k. ground (arith, w.user))
run-quiet L P M q s cpu th F Syscall.vm_reserve_at e v w h back inside =
    inside _ (λ scope k. ground (arith, w.user))
run-quiet L P M q s cpu th F Syscall.vm_unreserve e v w h back inside =
    inside _ (λ scope k. ground (arith, w.user))
run-quiet L P M q s cpu th F Syscall.vm_rereserve e v w h back inside =
    inside _ (λ scope k. ground (arith, w.user))
run-quiet L P M q s cpu th F _ e v w h back inside = cc

run-Kept :
    (L : LinkedList Garbage) (P : LinkedList ℕ) (M : IdMap) (q : Request) (s : Cpu) (cpu th : ℕ)
    (c : Syscall)
    → s.kernel.current cpu ≡ some th
    → IsAlive s th
    → IsServed q
    → is_quiet (some c) ≡ true
    → Returns (run L P M q s cpu c) (Kept s (HasForm q c))
run-Kept L P M q s cpu th c e v w h =
    run-quiet L P M q s cpu th (Kept s (HasForm q c)) c e v.joined w h (λ a k. k)
      (λ body r.
        keeping-Kept L s (s.kernel.current cpu) th (HasForm q c) body e v (λ scope k u. r scope k))

-- The number of a call; from 29 on, a number is unknown.
abbrev pub IsNumber : Option Syscall → ℕ → Type 0
IsNumber none number = 29 ≤ number
IsNumber (some c) number = number ≡ number_of c

abbrev pub IsAnswered : Request → Option Syscall → Outcome → Type 0
IsAnswered q call o = fits q call o.0 ≡ true

handler-Kept :
    (s : Cpu) (q : Request) (c : Syscall) (m : Option Answer)
    → Returns m (Kept s (HasForm q c))
    → Returns (m >>= λ r. some (returned c r.0, r.1)) (Kept s (IsAnswered q (some c)))
unfolding returned
handler-Kept s q c none w = w
handler-Kept s q c (some (none, left)) w = w
handler-Kept s q c (some (some r, left)) w = w

-- `SyscallHandler`, for a live thread that a critical CPU runs, on every number but those of the eight
-- calls that change the kernel or do not come back: where the task is a user task, and the string that
-- `PrintSyscall` is given ends, it returns, the kernel is as it was, and the result has a form that the
-- call has, which for an unknown number is empty.
pub handle-Kept :
    (L : LinkedList Garbage) (P : LinkedList ℕ) (M : IdMap) (q : Request) (s : Cpu) (cpu th : ℕ)
    (call : Option Syscall) (number : ℕ)
    → s.critical ≡ true
    → s.kernel.current cpu ≡ some th
    → IsAlive s th
    → IsServed q
    → is_quiet call ≡ true
    → IsNumber call number
    → Returns (handle L P M q s cpu number) (Kept s (IsAnswered q call))
handle-Kept L P M q s cpu th none number crit e v w h n =
    rw
      (
        handle-eq L P M q s cpu number crit,
        syscall_handler_past (run L P M q s cpu) (s, []) number n,
      )
      (refl, refl)
handle-Kept L P M q s cpu th (some c) number crit e v w h n =
    rw
      (
        handle-eq L P M q s cpu number crit,
        n,
        syscall_handler-number_of (run L P M q s cpu) (s, []) c,
      )
      (handler-Kept s q c (run L P M q s cpu c) (run-Kept L P M q s cpu th c e v w h))
