-- ===== src/Util/Lock.antt =====
-- kernel/src/util/noncritical-lock.cpp. `Seize` that has to wait and `Release` are each several
-- steps: up to the release of `queueLock`, and the writes and reads outside of it. `WaitingThread`
-- objects stand on the stacks of their callers, at addresses.
use alux.Prelude.{
  ℕ, Bool, true, false, if◌then◌else◌, update, Option, none, some, List, [], LinkedList, ensure,
  ◌>>=◌, ◌>>◌,
}
use alux.Kernel.{Kernel, Garbage}
use alux.Scheduler.Collector.{clear_timeout}
use alux.Scheduler.Main.{infinite}
use alux.Threads.Access.{get_task_scheduler}
use alux.Threads.Counts.{retain, release}
use alux.Threads.Sleep.{arm_timeout}

-- `struct WaitingThread`
pub record WaitingThread : Type 0 where
  pub thread : Option ℕ
  pub owner : Bool

-- `class NoncriticalLock`, with the `WaitingThread` objects that `queue` links by address.
pub record NoncriticalLock : Type 0 where
  pub held : Bool
  pub queue : List ℕ
  pub links : ℕ → WaitingThread

-- A new lock, with no `WaitingThread` on any stack.
abbrev pub new_lock : NoncriticalLock
new_lock = record { held = false; queue = []; links = λ x. record { thread = none; owner = false } }

module _ (P : LinkedList ℕ) where
  -- `Seize` from the construction of `threadLink` to the entry of the queue; `fresh` is the value of
  -- a new `ansa::Atomic<bool>`.
  unfoldable pub line_up : Bool → NoncriticalLock → ℕ → Option ℕ → NoncriticalLock
  line_up fresh l link th = record l {
    queue = P.add l.queue link;
    links = update l.links link (record { thread = th; owner = fresh });
  }

  -- The two ways to wait: polling, or on the scheduler.
  unfoldable pub wait :
      Bool → Kernel → NoncriticalLock → ℕ → Option ℕ → Option (Kernel × NoncriticalLock)
  unfolding line_up arm_timeout
  wait fresh k l link none = some (k, line_up fresh l link none)
  wait fresh k l link (some th) = do
    (k', result) ← retain k th
    ensure result
    get_task_scheduler k' th
    some (arm_timeout k' th infinite, line_up fresh l link (some th))

  -- `Seize` up to the release of `queueLock`, with whether it has the lock then. `initialized` is
  -- the answer of the list of domains.
  unfoldable pub seize :
      Bool → Kernel → NoncriticalLock → ℕ → Bool → ℕ → Option (Kernel × (NoncriticalLock × Bool))
  unfolding wait
  seize fresh k l cpu initialized link =
      let take : Kernel × (NoncriticalLock × Bool) = (k, (record l { held = true }, true)) in
      let waits = wait fresh k l link (if initialized then k.current cpu else none) >>= λ r.
      some (r.0, (r.1, false)) in
      if l.held then waits else some take

  next_of : NoncriticalLock → Option (ℕ × List ℕ) → NoncriticalLock × Option ℕ
  next_of l none = (record l { held = false }, none)
  next_of l (some (next, queue)) = (record l { queue = queue }, some next)

  -- `Release` up to the release of `queueLock`, with `next`
  unfoldable pub shift_next : NoncriticalLock → NoncriticalLock × Option ℕ
  unfolding next_of
  shift_next l = next_of l (P.shift l.queue)

-- `Release` writes the `owner` field of `next`.
unfoldable pub hand_over : NoncriticalLock → ℕ → NoncriticalLock
hand_over l next = record l { links = update l.links next (record (l.links next) { owner = true }) }

-- `Release` wakes the thread of `next`. The source reads the field for its test before it sets `owner`,
-- and once more after that to wake the thread; here the thread is what the test has read. No caller
-- changes the field once it waits, and one with a thread waits without a deadline until this wakes it.
unfoldable pub wake : Kernel → Option ℕ → Option Kernel
wake k none = some k
wake k (some th) = get_task_scheduler k th >> some (clear_timeout k th)

module _ (L : LinkedList Garbage) where
  -- The end of `Seize` for a caller that waited; while a caller without a thread does not own the
  -- lock, it polls on, and the end is not reached.
  unfoldable pub finish_seize : Kernel → NoncriticalLock → ℕ → Option Kernel
  finish_seize k l link =
      let give_back : ℕ → Option Kernel = λ th. ensure (l.links link).owner >> release L k th in
      let polled = ensure (l.links link).owner >> some k in
      elim (l.links link).thread [ none ↦ polled | some th ↦ give_back th ]
