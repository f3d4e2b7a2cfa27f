-- ===== src/Examples/Machines.antt =====
-- The CPUs: instances of the theorems, and tests.
use alux.Prelude.{
  ◌&&◌, not, ◌≡◌, ◌==◌, refl, update, none, some, inl, inr, Bool-cases, Returns, arith, ◌>>=◌,
}
use alux.Kernel.{Kernel, terminal_garbage, put_terminal}
use alux.Ipc.Connections
use alux.Ipc.Terminals.{new_terminal}
use alux.Prelude.{[]}
use alux.Examples.Maps.{sevens}
use alux.Scheduler.Attended.{Reach, garbage_due}
use alux.Scheduler.Collector.{throw_away}
use alux.Scheduler.Selection.{is_eligible, can_retain}
use alux.Scheduler.Promises
use alux.Scheduler.Promises.{IsFit, Promised}
use alux.Scheduler.Fulfilled.{perform-Promised}
use alux.Scheduler.Yielding.{view}
use alux.Scheduler.Sound.{IsSound}
use alux.Scheduler.Switch.{Outcome, switch, find_next}
use alux.Tasks.Stored
use alux.Threads.Counts.{retain, release}
use alux.Scheduler.Timer.{Machine, Step, fire, perform}
use alux.Examples.Lists.{links, objects}
use alux.Examples.Scheduling.{two_threads, two_threads-Inv}

-- CPU 0 runs thread 5.
abbrev pub one_runs : Machine
one_runs = record {
  kernel = two_threads;
  activity = update (λ c. none) 0 (some (Outcome.resumes 5 100));
}

pub one_runs-IsSound : IsSound one_runs
one_runs-IsSound = record {
  scheduler = two_threads-Inv;
  agrees = λ c. elim (Bool-cases (0 == c)) [
    | inl e ↦
        let mine : one_runs.activity c ≡ some (Outcome.resumes 5 100) = ground arith in
        let current : one_runs.kernel.current c ≡ some 5 = ground arith in rw (mine, current) refl
    | inr e ↦
        let idle : one_runs.activity c ≡ none = ground arith in
        let current : one_runs.kernel.current c ≡ none = ground arith in rw (idle, current) refl
  ];
}

-- Its timer fires; CPU 0 then runs thread 6.
six_runs :
    (perform objects links (λ us. us) one_runs (Step.fires 0 7) >>= λ m. m.activity 0)
    ≡ some (Outcome.resumes 6 50000)
unfolding switch fire release find_next Stored.release retain
six_runs = ground arith

-- A terminal is thrown away, and a CPU goes on: the collector's thread is due.
abbrev littered : Kernel
littered = throw_away objects two_threads (terminal_garbage 3)

littered-Reach : Reach objects links sevens littered
littered-Reach = Reach.throws (Reach.start two_threads refl) (terminal_garbage 3)

garbage_due_example :
    is_eligible littered 100 9 ≡ can_retain littered 9 && not (littered.objs 9).running
unfolding throw_away
garbage_due_example = garbage_due objects links sevens 100 littered-Reach (λ e. cc)

-- The collector deallocates the terminal, and goes on with an empty list.
abbrev cleaned : Kernel
cleaned = put_terminal (record littered { garbage = [] }) 3 (new_terminal none)

two_threads-IsFit : IsFit two_threads
two_threads-IsFit = record { scheduler = two_threads-Inv; truthful = λ x r. (0, ground arith) }

-- Thread 5 on CPU 0 asks to be left alone until tick 90.
perform-Promised_example :
    Returns
      (Promises.perform objects links (λ us. us) two_threads (Promises.Call.times_out 0 90 7))
      (λ k'. IsFit k' × Promised two_threads (Promises.Call.times_out 0 90 7) (5, refl) (view k'))
perform-Promised_example =
    perform-Promised objects links (λ us. us) two_threads (Promises.Call.times_out 0 90 7) (5, refl)
      two_threads-IsFit
