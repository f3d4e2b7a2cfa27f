-- ===== src/Scheduler/Timer.antt =====
-- kernel/src/scheduler/rr-scheduler.cpp: what the timer calls, and the CPUs with what each does.
use alux.Prelude.{ℕ, Option, some, update, LinkedList, ◌>>=◌}
use alux.Kernel.{Kernel, Garbage}
use alux.Scheduler.Collector.{clear_timeout}
use alux.Scheduler.Switch.{Outcome, resumes, waits, switch, yield_thread, set_timeout}
use alux.Threads.Counts.{kill}
use alux.Threads.Exit.{exit_current}

-- The CPUs on their kernel; a CPU that has not been started does nothing.
pub record Machine : Type 0 where
  pub kernel : Kernel
  pub activity : ℕ → Option Outcome

-- What may happen next: `Run` starts a CPU, its timer fires, the thread that it runs makes a call, or
-- some other code kills a thread or clears a timeout.
pub data Step : Type 0 where
  starts fires yields exits : (cpu now : ℕ) → Step
  times_out : (cpu deadline now : ℕ) → Step
  kills clears : (th : ℕ) → Step

-- The CPU turns to what its switch gives.
abbrev pub goes_on : Machine → ℕ → Kernel × Outcome → Machine
goes_on m cpu (k, o) = record { kernel = k; activity = update m.activity cpu (some o) }

module _ (L : LinkedList Garbage) (P : LinkedList ℕ) where
  -- `RRScheduler::SuspendAndSwitch`
  unfoldable pub suspend_and_switch : Kernel → ℕ → ℕ → (ℕ → ℕ) → Option (Kernel × Outcome)
  suspend_and_switch k cpu now scale = k.current cpu >>= λ th. switch L P k cpu now scale

  -- `RRScheduler::RunSyncAndSwitch`, on a CPU that waits
  unfoldable pub run_sync_and_switch : Kernel → ℕ → ℕ → (ℕ → ℕ) → Option (Kernel × Outcome)
  run_sync_and_switch k cpu now scale = switch L P k cpu now scale

  -- The function that `Switch` gave to the timer
  unfoldable pub fire : Kernel → ℕ → ℕ → (ℕ → ℕ) → Outcome → Option (Kernel × Outcome)
  unfolding suspend_and_switch run_sync_and_switch
  fire k cpu now scale (resumes th timeout) = suspend_and_switch k cpu now scale
  fire k cpu now scale (waits timeout) = run_sync_and_switch k cpu now scale

  abbrev pub perform : (ℕ → ℕ) → Machine → Step → Option Machine
  perform scale m (starts cpu now) =
      switch L P m.kernel cpu now scale >>= λ r. some (goes_on m cpu r)
  perform scale m (fires cpu now) =
      (m.activity cpu >>= fire m.kernel cpu now scale) >>= λ r. some (goes_on m cpu r)
  perform scale m (yields cpu now) =
      yield_thread L P m.kernel cpu now scale >>= λ r. some (goes_on m cpu r)
  perform scale m (exits cpu now) =
      exit_current L P m.kernel cpu now scale >>= λ r. some (goes_on m cpu r)
  perform scale m (times_out cpu deadline now) =
      set_timeout L P m.kernel cpu deadline now scale >>= λ r. some (goes_on m cpu r)
  perform scale m (kills th) = some (record m { kernel = kill m.kernel th })
  perform scale m (clears th) = some (record m { kernel = clear_timeout m.kernel th })
