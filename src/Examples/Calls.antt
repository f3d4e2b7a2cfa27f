-- ===== src/Examples/Calls.antt =====
-- System calls: instances of the theorems, and tests.
use alux.Prelude.{
  Returns, if◌then◌else◌, ◌==◌, ℕ, ◌+◌, ◌*◌, ◌≡◌, refl, true, false, some, none, [], arith,
}
use alux.Tasks.HoldScope.{Cpu}
use alux.Syscalls.Results.{error, Machine, error_permissions}
use alux.Syscalls.Handler.{Syscall}
use alux.Syscalls.Answers.{Kept}
use alux.Syscalls.Calls.{Request, handle}
use alux.Syscalls.Quiet.{IsServed, IsAnswered, handle-Kept}
use alux.Tasks.Holding.{IsAlive}
use alux.Examples.Maps.{sevens}
use alux.Syscalls.Privileges.{denied, MemoryCall}
use alux.Examples.Lists.{objects, links}
use alux.Examples.Store.{running}

abbrev machine : Machine
machine = record {
  page_size_count = 2;
  page_size = λ i. if_large i;
  page_size_align = λ i. if_large i;
  capabilities = record {
    placement_reserve = true;
    placement_map = true;
    executable_flag = false;
    writable_flag = true;
    cachable_flag = true;
  };
  alloc_phys = λ size align. some 0x9000;
  read = λ addr. none;
  find_map = λ phys size count attrs. none;
  find_reserve = λ size count. some 0x1000;
}
  where
    if_large : ℕ → ℕ
    if_large i = 0x1000 + i * 0x1ff000

-- A thread of user 7.
abbrev pub user_cpu : Cpu
user_cpu = record { kernel = running; critical = true }

-- It has entered no scope.
pub five-IsAlive : IsAlive user_cpu 5
five-IsAlive = record { joined = refl; small = omega arith; alive = refl }

abbrev no_args : ℕ → ℕ
no_args n = 1

-- Every argument is 1, and the memory of the task holds "A" at 1.
abbrev pub request : Request
request = record {
  args = no_args;
  machine = machine;
  is_user = true;
  bytes = λ a. if a == 1 then 65 else 0;
  rounds = 10;
  now = 1000;
  to_micros = λ n. n;
  to_ticks = λ n. n;
  addr = 40;
  identifier = 0;
  deadline = 0;
  found = none;
}

request-IsServed : IsServed request
request-IsServed = record {
  user = refl;
  length = 1;
  address = omega arith;
  within = omega arith;
  more = λ i lt e. ground (arith, lt, e);
  end = refl;
}

handle-Kept_example :
    Returns
      (handle objects links sevens request user_cpu 0 0)
      (Kept user_cpu (IsAnswered request (some Syscall.print)))
handle-Kept_example =
    handle-Kept objects links sevens request user_cpu 0 5 (some Syscall.print) 0 refl refl
      five-IsAlive request-IsServed refl refl

denied_example :
    handle objects links sevens request user_cpu 0 12
    ≡ some (some (error error_permissions), (user_cpu, []))
denied_example =
    denied objects links sevens request user_cpu 0 5 MemoryCall.vm_map refl refl five-IsAlive
      (λ e. absurd (omega arith))
