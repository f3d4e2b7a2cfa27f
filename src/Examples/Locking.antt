-- ===== src/Examples/Locking.antt =====
-- The lock for noncritical sections: instances of the theorems, and tests.
use alux.Prelude.{◌≡◌, ◌⊎◌, ℕ, refl, true, false, [], ◌∷◌, update, some, occurrences}
use alux.Kernel.{Kernel, put_obj}
use alux.Scheduler.Main.{infinite}
use alux.Scheduler.Selection.{retained}
use alux.Tasks.Task
use alux.Tasks.Stored
use alux.Threads.Access.{get_task_scheduler, get_task, get_scheduler}
use alux.Threads.Counts.{retain}
use alux.Threads.Sleep.{arm_timeout}
use alux.Util.Lock.{NoncriticalLock, new_lock, line_up, wait, seize}
use alux.Util.FairLock.{FairLock, queues, acquires, replay}
use alux.Util.Refinement
use alux.Util.Refinement.{replay-Agrees}
use alux.Util.Callers.{history, Phase, World, Reach, move}
use alux.Util.Exclusion.{IsBusy, one_inside, not_forgotten}
use alux.Examples.Lists.{links, objects}
use alux.Examples.Store.{running}

abbrev first_caller : ℕ
first_caller = 101

-- Caller 101, which has no thread, takes the lock.
abbrev taken_lock : NoncriticalLock
taken_lock = record new_lock { held = true }

abbrev one_caller : World
one_caller = record {
  kernel = running;
  lock = taken_lock;
  phases = update (λ c. Phase.outside) 101 Phase.inside;
}

one_caller-Reach : Reach objects links one_caller
unfolding seize
one_caller-Reach = Reach.seizes (Reach.start running) 101 0 false refl running taken_lock true refl

one_inside_example : first_caller ≡ first_caller
one_inside_example = one_inside objects links first_caller first_caller one_caller-Reach refl refl

-- Then caller 102 waits, on behalf of thread 5.
abbrev waited : Kernel
waited = put_obj (retained running 5) 5 (record { deadline = infinite; running = true })

seize_waits :
    seize links false running taken_lock 0 true 102
    ≡ some (waited, (line_up links false taken_lock 102 (some 5), false))
unfolding seize wait line_up arm_timeout retain Stored.retain Task.retain get_task_scheduler
    get_task get_scheduler
seize_waits = refl

abbrev two_callers : World
two_callers =
    move (record one_caller { kernel = waited; lock = line_up links false taken_lock 102 (some 5) })
      102 Phase.waiting

two_callers-Reach : Reach objects links two_callers
unfolding line_up
two_callers-Reach =
    Reach.seizes one_caller-Reach 102 0 true refl waited
      (line_up links false taken_lock 102 (some 5)) false seize_waits

not_forgotten_example :
    ((d : ℕ) × (two_callers.phases d ≡ Phase.releasing 102))
    ⊎ (occurrences 102 two_callers.lock.queue ≡ 1) × ((d : ℕ) × IsBusy two_callers d)
unfolding line_up
not_forgotten_example = not_forgotten objects links 102 two_callers-Reach refl refl

replay-Agrees_example :
    (s : FairLock) × (replay (history objects links two_callers-Reach) ≡ some s)
    × Refinement.Agrees two_callers 102 s
replay-Agrees_example = replay-Agrees objects links two_callers-Reach 102

-- The events of that run.
two_callers_history :
    history objects links two_callers-Reach ≡ queues 102 ∷ acquires first_caller ∷ []
unfolding history two_callers-Reach one_caller-Reach
two_callers_history = refl
