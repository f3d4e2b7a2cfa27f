-- ===== src/Scheduler/Switch.antt =====
-- kernel/src/scheduler/rr-scheduler.cpp: switching threads, yielding and timeouts. A call that
-- suspends the current thread ends in `Switch`; `scale` is `ScaleInteger` of the timer's ticks per
-- microsecond and `now` the clock's ticks.
use alux.Prelude.{
  ℕ, true, false, not, ◌||◌, ltb, if◌then◌else◌, update, Option, none, some, List, [], ◌∷◌,
  LinkedList, ◌>>=◌,
}
use alux.Kernel.{Kernel, Garbage, put_obj}
use alux.Scheduler.Main.{infinite}
use alux.Threads.Access.{get_task}
use alux.Threads.Counts.{retain, release}

abbrev pub jiffy_us : ℕ
jiffy_us = 50000

-- What the CPU does after `Switch`: resume a thread until the timer calls `SuspendAndSwitch`, or
-- wait until it calls `RunSyncAndSwitch`.
pub data Outcome : Type 0 where
  resumes : (th timeout : ℕ) → Outcome
  waits : (timeout : ℕ) → Outcome

abbrev pub set_current : Kernel → ℕ → Option ℕ → Kernel
set_current k cpu th = record k { current = update k.current cpu th }

-- Clearing the flag of the current thread and moving it to the back.
abbrev pub retired : LinkedList ℕ → Kernel → ℕ → ℕ → Kernel
retired P k cpu th =
    let k' = record (set_current k cpu none) { run_queue = P.add (P.remove k.run_queue th) th } in
    put_obj k' th (record (k.objs th) { running = false })

-- The thread that `Switch` found.
abbrev pub claimed : Kernel → ℕ → Kernel
claimed k th = put_obj k th (record (k.objs th) { running = true })

module _ (L : LinkedList Garbage) where
  -- The loop of `Switch` over the list of threads.
  unfoldable pub find_next : Kernel → ℕ → List ℕ → Option (Kernel × Option ℕ)
  find_next k now [] = some (k, none)
  find_next k now (x ∷ xs) = retain k x >>= λ r.
      let skip = find_next r.0 now xs in
      let give_back = release L r.0 x >>= λ k'. find_next k' now xs in
      if not r.1
      then skip
      else if ltb now (r.0.objs x).deadline || (r.0.objs x).running
      then give_back
      else some (claimed r.0 x, some x)

module _ (L : LinkedList Garbage) (P : LinkedList ℕ) where
  resign : Kernel → ℕ → Option ℕ → Option Kernel
  resign k cpu none = some k
  resign k cpu (some th) = release L (retired P k cpu th) th

  -- `RRScheduler::ResignCurrent`
  unfoldable pub resign_current : Kernel → ℕ → Option Kernel
  unfolding resign
  resign_current k cpu = resign k cpu (k.current cpu)

  unfoldable pub resume : Kernel → ℕ → (ℕ → ℕ) → Option ℕ → Option (Kernel × Outcome)
  resume k cpu scale none = some (k, waits (scale jiffy_us))
  resume k cpu scale (some th) =
      get_task k th >>= λ _. some (set_current k cpu (some th), resumes th (scale jiffy_us))

  -- `RRScheduler::Switch`
  unfoldable pub switch : Kernel → ℕ → ℕ → (ℕ → ℕ) → Option (Kernel × Outcome)
  unfolding resign_current resume
  switch k cpu now scale = do
    k' ← resign_current k cpu
    (k'', next) ← find_next L k' now k'.run_queue
    resume k'' cpu scale next

  -- `RRScheduler::Yield`
  unfoldable pub yield_thread : Kernel → ℕ → ℕ → (ℕ → ℕ) → Option (Kernel × Outcome)
  yield_thread k cpu now scale = k.current cpu >>= λ th. switch k cpu now scale

  -- `RRScheduler::SetTimeout`
  unfoldable pub set_timeout : Kernel → ℕ → ℕ → ℕ → (ℕ → ℕ) → Option (Kernel × Outcome)
  unfolding yield_thread
  set_timeout k cpu deadline now scale = k.current cpu >>= λ th.
      yield_thread (put_obj k th (record (k.objs th) { deadline = deadline })) cpu now scale

  -- `RRScheduler::SetTimeout` with a lock: `unlock` is what its `Release` does, and what others do that
  -- wait for it, until the CPU switches.
  unfoldable pub set_timeout_unlocking :
      Kernel
      → (cpu deadline : ℕ) → (unlock : Kernel → Kernel) → ℕ
      → (ℕ → ℕ)
      → Option (Kernel × Outcome)
  unfolding yield_thread
  set_timeout_unlocking k cpu deadline unlock now scale = k.current cpu >>= λ th.
      yield_thread (unlock (put_obj k th (record (k.objs th) { deadline = deadline }))) cpu now
        scale

  -- `RRScheduler::SetInfiniteTimeout`, without a lock and with one
  unfoldable pub set_infinite_timeout : Kernel → ℕ → ℕ → (ℕ → ℕ) → Option (Kernel × Outcome)
  unfolding set_timeout
  set_infinite_timeout k cpu now scale = set_timeout k cpu infinite now scale

  unfoldable pub set_infinite_timeout_unlocking :
      Kernel → (cpu : ℕ) → (unlock : Kernel → Kernel) → ℕ → (ℕ → ℕ) → Option (Kernel × Outcome)
  unfolding set_timeout_unlocking
  set_infinite_timeout_unlocking k cpu unlock now scale =
      set_timeout_unlocking k cpu infinite unlock now scale
