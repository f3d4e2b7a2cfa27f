-- ===== src/Memory/System.antt =====
-- The whole machine: the CPUs of kernel/src/scheduler/rr-scheduler.cpp with the threads that make
-- system calls on them and the programs whose page faults kernel/src/memory/page-fault.cpp handles.
use alux.Prelude.{
  ℕ, Bool, true, List, ◌∷◌, Option, none, some, update, [], ◌>>=◌, LinkedList, IdMap,
}
use alux.Arch.Program.{ExecutableMap}
use alux.Kernel.{Garbage}
use alux.Memory.PageFault.{Outcome, handle_page_fault}
use alux.Scheduler.Timer.{Machine}
use alux.Syscalls.Results.{Answer, empty}
use alux.Syscalls.System as calls
use alux.Syscalls.System.{Event, after}
use alux.Tasks.HoldScope.{Cpu}

module _ (E : ExecutableMap) where
  open E use {Map}

  -- The CPUs, and the executable map of each task that is a user task.
  pub record World : Type 0 where
    pub machine : Machine
    pub maps : ℕ → Option Map

  -- To the CPU a page fault is a call without a result.
  abbrev pub answer_of : Cpu × Option (Outcome E) → Answer
  answer_of (s, none) = (none, (s, []))
  answer_of (s, some r) = (some empty, (s, []))

  abbrev pub map_of : Option Map → Cpu × Option (Outcome E) → Option Map
  map_of m (s, none) = m
  map_of m (s, some (m', calls)) = some m'

-- What may happen next: an event of the CPUs, or a page fault of the thread that a CPU runs, with what an
-- allocation gives, and the time at which the CPU switches if the thread does not come back.
pub data Occurrence : Type 0 where
  happens : Event → Occurrence
  faults : (cpu now addr : ℕ) (write : Bool) (page : Option ℕ) → Occurrence

module _ (E : ExecutableMap) (L : LinkedList Garbage) (P : LinkedList ℕ) (M : IdMap)
    (scale : ℕ → ℕ) where
  abbrev pub perform : World E → Occurrence → Option (World E)
  perform w (happens e) =
      calls.perform L P M scale w.machine e >>= λ m. some (record w { machine = m })
  perform w (faults cpu now addr write page) = do
    th ← w.machine.kernel.current cpu
    let task = (w.machine.kernel.threads th).task
    r ←
        handle_page_fault E L (record { kernel = w.machine.kernel; critical = true }) (some th)
          (w.maps task) addr write page
    m ← after L P scale w.machine cpu now (answer_of E r)
    some (record { machine = m; maps = update w.maps task (map_of E (w.maps task) r) })

  -- One thing after the other
  unfoldable pub play : World E → List Occurrence → Option (World E)
  play w [] = some w
  play w (o ∷ os) = perform w o >>= λ w'. play w' os
