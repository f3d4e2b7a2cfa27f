-- ===== src/Syscalls/Requests.antt =====
-- The state of the CPUs of kernel/src/scheduler/rr-scheduler.cpp between system calls, and what may
-- happen in it.
use alux.Prelude.{ℕ, ◌≡◌, ◌≢◌, refl, true, Option, none, some, List, IdMap, All-of, occurrences}
use alux.Kernel.{Kernel}
use alux.Scheduler.Settling.{Calm}
use alux.Scheduler.Sound as cpus
use alux.Scheduler.Sound.{IsSound, IsRunning, running_thread, switched-IsSound}
use alux.Scheduler.Timer.{Machine, Step, starts, fires, yields, exits, times_out, kills, clears}
use alux.Syscalls.Calls.{Request}
use alux.Syscalls.Conduct.{Meets}
use alux.Syscalls.Handler.{Syscall}
use alux.Syscalls.Quiet.{IsServed, IsNumber, is_quiet}
use alux.Syscalls.System.{Event, does, calls, wakes}
use alux.Tasks.Settled.{settled-IsCalling}
use alux.Tasks.Steady.{IsSettled}

-- The invariant of the CPUs with their system calls.
pub record IsOrderly (m : Machine) : Type 0 where
  pub sound : IsSound m
  pub calm : Calm m.kernel

-- A new thread gets an identifier in its task, and the address of no thread of the scheduler.
abbrev pub HasRoom : IdMap → Request → Kernel → ℕ → Type 0
HasRoom M q k th =
    ((n : ℕ) × (ths : List ℕ) × (M.add (k.thread_lists (k.threads th).task) q.addr ≡ some (n, ths)))
    × (occurrences q.addr k.run_queue ≡ 0)

-- A thread makes a call on a CPU that runs it. A launch has room; and calls but the eight that change
-- the kernel come from a user task with a string that ends.
pub record MayCall (M : IdMap) (m : Machine) (cpu : ℕ) (q : Request) (call : Option Syscall)
    (number : ℕ) : Type 0 where
  pub running : IsRunning (m.activity cpu)
  pub room :
      call ≡ some Syscall.launch_thread
      → (th : ℕ) → m.kernel.current cpu ≡ some th
      → HasRoom M q m.kernel th
  pub served : is_quiet call ≡ true → IsServed q
  pub is_number : IsNumber call number

-- A CPU is started once, before its timer fires, and only the thread that a CPU runs makes calls on it.
abbrev pub MayDo : Machine → Step → Type 0
MayDo m (starts cpu now) = m.activity cpu ≡ none
MayDo m (fires cpu now) = m.activity cpu ≢ none
MayDo m (yields cpu now) = IsRunning (m.activity cpu)
MayDo m (exits cpu now) = IsRunning (m.activity cpu)
MayDo m (times_out cpu deadline now) = IsRunning (m.activity cpu)
MayDo m (kills th) = Unit
MayDo m (clears th) = Unit

abbrev pub May : IdMap → Machine → Event → Type 0
May M m (does step) = MayDo m step
May M m (calls cpu now q number) = (call : Option Syscall) × MayCall M m cpu q call number
May M m (wakes cpu) =
    (th : ℕ) × (m.kernel.current cpu ≡ some th)
    × ((m.kernel.threads th).sleep_state.sleeping ≡ true)

-- A current thread is in a task that the scheduler has.
pub home_scheduled :
    (m : Machine) (cpu th : ℕ)
    → IsOrderly m
    → m.kernel.current cpu ≡ some th
    → (m.kernel.tasks (m.kernel.threads th).task).in_scheduler ≡ true
home_scheduled m cpu th v e =
    (settled-IsCalling m.kernel cpu th v.sound.scheduler v.calm.0 (v.calm.1 cpu) e).scheduled

pub MayDo-Allowed : (m : Machine) (s : Step) → IsOrderly m → MayDo m s → cpus.Allowed m s
MayDo-Allowed m (starts cpu now) v h = h
MayDo-Allowed m (fires cpu now) v h = h
MayDo-Allowed m (yields cpu now) v h = h
MayDo-Allowed m (exits cpu now) v h = (h, λ th e. home_scheduled m cpu th v e)
MayDo-Allowed m (times_out cpu deadline now) v h = h
MayDo-Allowed m (kills th) v h = h
MayDo-Allowed m (clears th) v h = h

pub settled-Meets :
    (M : IdMap) (q : Request) (k : Kernel) (th : ℕ) (call : Option Syscall)
    → IsSettled k
    → (call ≡ some Syscall.launch_thread → HasRoom M q k th)
    → Meets M q k th call
settled-Meets M q k th (some Syscall.launch_thread) v h = h refl
settled-Meets M q k th (some Syscall.wakeup) v h =
    All-of _ (k.thread_lists (k.threads th).task) (λ x o.
      let joined = v.placed.listed (k.threads th).task x o in (joined, v.placed.scheduled x joined))
settled-Meets M q k th (some Syscall.destroy_port) v h = unattached q.found
  where
    unattached : (o : Option ℕ) → Meets M (record q { found = o }) k th (some Syscall.destroy_port)
    unattached none = tt
    unattached (some port) = rw (v.placed.terminals port) tt
settled-Meets M q k th _ v h = tt
