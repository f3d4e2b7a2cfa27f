-- ===== src/Examples/Scheduling.antt =====
-- The scheduler: instances of the theorems, and tests.
use alux.Prelude.{
  none, true, List, ◌*◌, ◌≡◌, refl, Returns, occurrences, some, [], ◌∷◌, first, All, arith,
}
use alux.Kernel.{Kernel, put_thread}
use alux.Scheduler.Switch.{find_next, yield_thread}
use alux.Scheduler.Selection.{IsListed, is_eligible, found, find_next-first}
use alux.Scheduler.Exclusion.{Inv}
use alux.Scheduler.Fairness.{IsReady, Served, switches_serve}
use alux.Scheduler.Turns.{ahead}
use alux.Scheduler.Barred.{Spurns}
use alux.Scheduler.Exits.{Event, Never, exit_current-Never}
use alux.Threads.Exit.{exit_current}
use alux.Syscalls.Calls.{Request, handle}
use alux.Syscalls.Sleeping.{sleep-Never}
use alux.Examples.Calls.{request}
use alux.Examples.Maps.{sevens}
use alux.Examples.Lists.{links, objects}
use alux.Examples.Store.{running, runner}

-- Thread 6 stands behind thread 5, which is running.
abbrev pub two_threads : Kernel
two_threads = record (put_thread running 6 (record runner { retain_count = 0 })) {
  run_queue = 5 ∷ 6 ∷ [];
}

two_threads-IsListed : All (IsListed two_threads) two_threads.run_queue
two_threads-IsListed = (
  record { joined = refl; word = omega arith; task_word = omega arith },
  (record { joined = refl; word = omega arith; task_word = omega arith }, tt),
)

find_next-first_example :
    find_next objects two_threads 1 (5 ∷ 6 ∷ [])
    ≡ some (found two_threads (first (is_eligible two_threads 1) (5 ∷ 6 ∷ [])))
find_next-first_example = find_next-first objects two_threads 1 (5 ∷ 6 ∷ []) two_threads-IsListed

-- CPU 1 passes over the thread that CPU 0 runs.
skips_running : first (is_eligible two_threads 1) (5 ∷ 6 ∷ []) ≡ some 6
unfolding first
skips_running = refl

pub two_threads-Inv : Inv two_threads
unfolding occurrences
two_threads-Inv = record {
  joined = (refl, (refl, tt));
  enqueued = λ c th e. ground arith;
  marked = λ c th e. ground arith;
  apart = λ c d th e e'. ground arith;
  words = λ x. ground arith;
  task_words = λ i. ground arith;
}

two_threads-IsReady : IsReady two_threads 0 6
unfolding occurrences
two_threads-IsReady = record {
  idle = refl;
  alive = refl;
  due = omega arith;
  listed = omega arith;
  once = λ y. ground arith;
}

-- Thread 6 is the first idle one: the next switch resumes it, on CPU 1.
switches_serve_example : Served objects links (λ us. us * 2) two_threads 6 ((1, 5) ∷ [])
unfolding ahead
switches_serve_example =
    switches_serve objects links two_threads 0 6 (λ us. us * 2) ((1, 5) ∷ []) two_threads-Inv
      two_threads-IsReady (omega arith, tt) (omega arith)

-- Thread 5 exits on CPU 0; then both CPUs switch, and thread 6 is killed in between.
exit_current-Never_example : Returns (exit_current objects links two_threads 0 5 (λ us. us)) λ r.
    Spurns 5 r.1
    × Never objects links
        (λ us. us)
        r.0
        5
        (Event.switches 1 6 ∷ Event.kills 6 ∷ Event.switches 0 7 ∷ [])
exit_current-Never_example =
    exit_current-Never objects links two_threads 0 5 5 (λ us. us)
      (Event.switches 1 6 ∷ Event.kills 6 ∷ Event.switches 0 7 ∷ []) two_threads-Inv refl refl

-- Thread 5 asks on CPU 0 to sleep for 3 us at tick 1000; both CPUs switch before tick 1003.
abbrev nap : Request
nap = record request { args = λ n. 3000; to_ticks = λ us. us }

abbrev before_three : List (Event objects links)
before_three = Event.switches 1 1001 ∷ Event.sets 6 0 ∷ Event.switches 0 1002 ∷ []

sleep-Never_example :
    Returns
      (handle objects links sevens nap (record { kernel = two_threads; critical = true }) 0 23)
      (λ r.
        (r.0 ≡ none)
        × Returns
            (yield_thread objects links r.1.0.kernel 0 1000 (λ us. us))
            (λ o. Spurns 5 o.1 × Never objects links (λ us. us) o.0 5 before_three))
sleep-Never_example =
    sleep-Never objects links sevens nap (record { kernel = two_threads; critical = true }) 0 5 1000
      (λ us. us) before_three refl two_threads-Inv refl (λ e. absurd (omega arith)) refl refl
      (λ e. absurd (omega arith)) (omega arith) (omega arith)
      (omega arith, ((λ e. absurd (omega arith)), (omega arith, tt)))
