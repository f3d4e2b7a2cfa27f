-- ===== src/Memory/PageFault.antt =====
-- kernel/src/memory/page-fault.cpp.
use alux.Prelude.{ℕ, Bool, Option, none, some, List, LinkedList, ensure, ◌>>=◌, ◌>>◌}
use alux.Kernel.{Garbage}
use alux.Tasks.HoldScope.{Cpu, Entry, entered, exited, construct, destroy}
use alux.Arch.Program.{ExecutableMap}

module _ (E : ExecutableMap) where
  open E use {Map, Call}

  -- The map of the task with the calls that the fault makes.
  abbrev pub Outcome : Type 0
  Outcome = Map × List Call

  -- A fault that the program's map does not handle is a panic.
  unfoldable pub answer : Map × Bool × List Call → Option Outcome
  answer (m, handled, calls) = ensure handled >> some (m, calls)

module _ (E : ExecutableMap) (L : LinkedList Garbage) where
  -- What `HandlePageFault` does in its `HoldScope`; with no outcome the thread has exited.
  unfoldable pub inside : Option (Outcome E) → Entry → Option (Cpu × Option (Outcome E))
  inside body (exited s) = some (s, none)
  inside body (entered scope s) = do r ← body; some (destroy L scope s, some r)

  -- `HandlePageFault`: `th` is the current thread, `m` the map of its task if that is a user task,
  -- and `alloc` what an allocation of a page gives.
  unfoldable pub handle_page_fault :
      Cpu
      → Option ℕ
      → Option E.Map
      → (addr : ℕ) → (write : Bool) → (alloc : Option ℕ) → Option (Cpu × Option (Outcome E))
  unfolding inside answer
  handle_page_fault s th none addr write alloc = construct s th >>= inside none
  handle_page_fault s th (some m) addr write alloc =
      construct s th >>= inside (E.handle_page_fault m addr write alloc >>= answer E)
