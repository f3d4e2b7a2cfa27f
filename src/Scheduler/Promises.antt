-- ===== src/Scheduler/Promises.antt =====
-- The calls of kernel/src/scheduler/scheduler.hpp on the round-robin scheduler of
-- kernel/src/scheduler/rr-scheduler.cpp, and what the contract says of each.
use alux.Prelude.{
  List, [], ◌∷◌, ℕ, ◌<◌, ◌≡◌, ◌≢◌, true, some, Option, LinkedList, occurrences, ◌>>=◌,
}
use alux.Kernel.{Kernel, Garbage}
use alux.Scheduler.Collector.{clear_garbage_timeout}
use alux.Scheduler.Collector as collector
use alux.Scheduler.Contract
use alux.Scheduler.Contract.{Scheduler, Yields}
use alux.Scheduler.Exclusion.{Inv}
use alux.Scheduler.Queue
use alux.Scheduler.Selection.{can_retain}
use alux.Scheduler.Switch.{
  yield_thread, set_timeout, set_infinite_timeout, set_timeout_unlocking,
  set_infinite_timeout_unlocking,
}
use alux.Boot.Start.{run}
use alux.Scheduler.Yielding.{view, IsTruthful}

-- A call of a method of `Scheduler`; those that give up the CPU say which, and when.
pub data Call : Type 0 where
  adds : (th deadline : ℕ) → Call
  removes clears : (th : ℕ) → Call
  clears_garbage : Call
  yields : (cpu now : ℕ) → Call
  times_out : (cpu deadline now : ℕ) → Call
  times_out_for_ever : (cpu now : ℕ) → Call
  times_out_unlocking : (cpu deadline : ℕ) → (unlock : Kernel → Kernel) → (now : ℕ) → Call
  times_out_for_ever_unlocking : (cpu : ℕ) → (unlock : Kernel → Kernel) → (now : ℕ) → Call
  runs : (cpus : List (ℕ × ℕ)) → Call

module _ (L : LinkedList Garbage) (P : LinkedList ℕ) (scale : ℕ → ℕ) where
  -- What the round-robin scheduler does.
  abbrev pub perform : Kernel → Call → Option Kernel
  perform k (adds th deadline) = some (Queue.add P k th deadline)
  perform k (removes th) = some (Queue.remove P k th)
  perform k (clears th) = some (collector.clear_timeout k th)
  perform k clears_garbage = some (clear_garbage_timeout k)
  perform k (yields cpu now) = yield_thread L P k cpu now scale >>= λ r. some r.0
  perform k (times_out cpu deadline now) =
      set_timeout L P k cpu deadline now scale >>= λ r. some r.0
  perform k (times_out_for_ever cpu now) =
      set_infinite_timeout L P k cpu now scale >>= λ r. some r.0
  perform k (times_out_unlocking cpu deadline unlock now) =
      set_timeout_unlocking L P k cpu deadline unlock now scale >>= λ r. some r.0
  perform k (times_out_for_ever_unlocking cpu unlock now) =
      set_infinite_timeout_unlocking L P k cpu unlock now scale >>= λ r. some r.0
  perform k (runs cpus) = run L P k scale cpus

-- The invariant of the round-robin scheduler.
pub record IsFit (k : Kernel) : Type 0 where
  pub scheduler : Inv k
  pub truthful : IsTruthful k

-- What others do when a lock is released keeps the invariant, and leaves the CPU its thread.
pub record IsUnlock (cpu : ℕ) (unlock : Kernel → Kernel) : Type 0 where
  pub fit : (k : Kernel) → IsFit k → IsFit (unlock k)
  pub current : (k : Kernel) → (unlock k).current cpu ≡ k.current cpu

-- Who makes a call: a thread that is added is in its task and runs nowhere, one that is removed is
-- in the list and runs nowhere, and the calls that give up a CPU are those of the thread that it runs.
abbrev pub Allowed : Kernel → Call → Type 0
Allowed k (adds th deadline) = ((k.threads th).in_task ≡ true) × ((c : ℕ) → k.current c ≢ some th)
Allowed k (removes th) = (0 < occurrences th k.run_queue) × ((c : ℕ) → k.current c ≢ some th)
Allowed k (clears th) = Unit
Allowed k clears_garbage = Unit
Allowed k (yields cpu now) = (th : ℕ) × (k.current cpu ≡ some th)
Allowed k (times_out cpu deadline now) = (th : ℕ) × (k.current cpu ≡ some th)
Allowed k (times_out_for_ever cpu now) = (th : ℕ) × (k.current cpu ≡ some th)
Allowed k (times_out_unlocking cpu deadline unlock now) =
    (th : ℕ) × (k.current cpu ≡ some th) × IsUnlock cpu unlock
Allowed k (times_out_for_ever_unlocking cpu unlock now) =
    (th : ℕ) × (k.current cpu ≡ some th) × IsUnlock cpu unlock
Allowed k (runs cpus) = Unit

-- The lock is released once the timeout has been set, in a state that shows just that, and the CPU
-- yields from what this leaves.
pub record Unlocked (unlock : Kernel → Kernel) (cpu now : ℕ) (s s' : Scheduler) : Type 0 where
  pub at_release : Kernel
  pub armed : view at_release ≡ s
  pub yields : Yields (can_retain (unlock at_release)) cpu now (view (unlock at_release)) s'

-- The CPUs yield one after the other.
abbrev pub Ran : Kernel → List (ℕ × ℕ) → Scheduler → Type 0
Ran k [] s' = s' ≡ view k
Ran k ((cpu, now) ∷ cpus) s' =
    (k1 : Kernel) × Yields (can_retain k) cpu now (view k) (view k1) × Ran k1 cpus s'

-- What the contract says of a call, by what it shows of the state before and after.
abbrev pub Promised : (k : Kernel) (c : Call) → Allowed k c → Scheduler → Type 0
Promised k (adds th deadline) h s' = s' ≡ Contract.add (view k) th deadline
Promised k (removes th) h s' = s' ≡ Contract.remove (view k) th
Promised k (clears th) h s' = s' ≡ Contract.clear_timeout (view k) th
Promised k clears_garbage h s' = s' ≡ Contract.clear_garbage_timeout (view k)
Promised k (yields cpu now) h s' = Yields (can_retain k) cpu now (view k) s'
Promised k (times_out cpu deadline now) (th, e) s' =
    Yields (can_retain k) cpu now (Contract.set_timeout (view k) th deadline) s'
Promised k (times_out_for_ever cpu now) (th, e) s' =
    Yields (can_retain k) cpu now (Contract.set_infinite_timeout (view k) th) s'
Promised k (times_out_unlocking cpu deadline unlock now) (th, e, u) s' =
    Unlocked unlock cpu now (Contract.set_timeout (view k) th deadline) s'
Promised k (times_out_for_ever_unlocking cpu unlock now) (th, e, u) s' =
    Unlocked unlock cpu now (Contract.set_infinite_timeout (view k) th) s'
Promised k (runs cpus) h s' = Ran k cpus s'
