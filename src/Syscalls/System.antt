-- ===== src/Syscalls/System.antt =====
-- The CPUs of kernel/src/scheduler/rr-scheduler.cpp with the threads that make system calls on them.
use alux.Prelude.{ℕ, true, Option, none, some, LinkedList, IdMap, ◌>>=◌}
use alux.Kernel.{Garbage}
use alux.Scheduler.Switch.{yield_thread}
use alux.Scheduler.Timer as cpus
use alux.Scheduler.Timer.{Machine, goes_on}
use alux.Threads.Sleep.{finish_sleep}
use alux.Syscalls.Calls.{Request, handle}
use alux.Syscalls.Results.{Answer}

-- What may happen next: what happens on the CPUs by themselves; a system call of the thread that a CPU
-- runs, with the time at which the CPU switches if the thread does not come back from it; or the end of
-- a sleep, which the thread comes to once a CPU has resumed it.
pub data Event : Type 0 where
  does : cpus.Step → Event
  calls : (cpu now : ℕ) → Request → (number : ℕ) → Event
  wakes : (cpu : ℕ) → Event

module _ (L : LinkedList Garbage) (P : LinkedList ℕ) where
  -- The thread goes on, or gives up its CPU.
  unfoldable pub after : (ℕ → ℕ) → Machine → (cpu now : ℕ) → Answer → Option Machine
  after scale m cpu now (some r, (s, log)) = some (record m { kernel = s.kernel })
  after scale m cpu now (none, (s, log)) =
      yield_thread L P s.kernel cpu now scale >>= λ r. some (goes_on m cpu r)

module _ (L : LinkedList Garbage) (P : LinkedList ℕ) (M : IdMap) where
  abbrev pub perform : (ℕ → ℕ) → Machine → Event → Option Machine
  perform scale m (does step) = cpus.perform L P scale m step
  perform scale m (calls cpu now q number) =
      handle L P M q (record { kernel = m.kernel; critical = true }) cpu number
      >>= after L P scale m cpu now
  perform scale m (wakes cpu) =
      m.kernel.current cpu >>= λ th. some (record m { kernel = finish_sleep m.kernel th })
