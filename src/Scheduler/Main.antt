-- ===== src/Scheduler/Main.antt =====
-- kernel/src/scheduler/garbage-collector.cpp: the collector's thread.
use alux.Prelude.{
  ℕ, ◌-◌, ◌^◌, Bool, true, false, Option, none, some, List, LinkedList, IdMap, ◌>>=◌,
}
use alux.Kernel.{Kernel, Garbage, task_garbage, thread_garbage, terminal_garbage, put_obj}
use alux.Ipc.Connections
use alux.Tasks.Life as task_life
use alux.Threads.Life as thread_life

-- The deadline that `SetInfiniteTimeout` sets.
abbrev pub infinite : ℕ
infinite = 2 ^ 64 - 1

module _ (L : LinkedList Garbage) (P : LinkedList ℕ) (M : IdMap) where
  -- `GarbageObject::Dealloc`, by the class of the object.
  unfoldable pub dealloc : Kernel → Garbage → List ℕ → Option Kernel
  dealloc k (task_garbage i) stack = task_life.dealloc L P M k i
  dealloc k (thread_garbage i) stack = thread_life.dealloc L P M k i
  dealloc k (terminal_garbage i) stack = Connections.dealloc L P k i stack

  -- One round of the loop in `GarbageCollector::Main`. The flag says whether the thread goes to sleep
  -- in `SetInfiniteTimeout`; the lock of the list is held from `Shift` until the timeout is set.
  unfoldable pub main_round : Kernel → List ℕ → Option (Kernel × Bool)
  unfolding dealloc
  main_round k stack = elim (L.shift k.garbage) [
    | none ↦ some (
      put_obj k k.collector_thread (record (k.objs k.collector_thread) { deadline = infinite }),
      true,
    )
    | some (obj, rest) ↦ dealloc (record k { garbage = rest }) obj stack >>= λ k'. some (k', false)
  ]
