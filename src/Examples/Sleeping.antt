-- ===== src/Examples/Sleeping.antt =====
-- Sleeping threads: instances of the theorems, and tests.
use alux.Prelude.{◌==◌, first, ◌≡◌, refl, true, false, not, ◌&&◌, update, some, arith}
use alux.Kernel.{Kernel, put_thread, put_obj}
use alux.Scheduler.Selection.{is_eligible, can_retain}
use alux.Syscalls.Results.{empty}
use alux.Syscalls.Threads.{wakeup}
use alux.Syscalls.Waking.{waking, wakeup-waking}
use alux.Threads.Access.{get_task_scheduler, get_task, get_scheduler}
use alux.Threads.Sleep.{
  nanos_from_now, returned, suspended, sleep, sleep_infinite, unsleep, cancel, arm_timeout,
}
use alux.Threads.Wakeups.{World, Reach, passed, woken_due, woken_returns}
use alux.Examples.Lists.{objects}
use alux.Examples.Store.{running, runner}

-- Nobody sleeps yet.
abbrev awake : World
awake = record { kernel = running; parked = λ x. false; woken = λ x. false }

awake-Reach : Reach awake
awake-Reach = Reach.start running (λ x. ground arith) (λ x. ground arith)

-- Thread 5 is woken while it runs.
abbrev noted : Kernel
noted =
    put_thread running 5
      (record runner { sleep_state = record { sleeping = false; cancelled = true } })

abbrev woken_early : World
woken_early = record awake { kernel = noted; woken = update awake.woken 5 true }

woken_while_running : unsleep running 5 ≡ some noted
unfolding unsleep cancel
woken_while_running = refl

woken_returns_example :
    (sleep noted 0 100 (λ us. us) 5000 ≡ some (passed noted 5, returned))
    × (sleep_infinite noted 0 ≡ some (passed noted 5, returned))
woken_returns_example =
    woken_returns 5 0 100 (λ us. us) 5000 (Reach.wakes awake-Reach 5 noted woken_while_running) refl
      refl refl

-- Thread 5 sleeps for 5 microseconds from tick 100 on.
abbrev asleep : Kernel
asleep =
    put_obj
      (put_thread running 5
        (record runner { sleep_state = record { sleeping = true; cancelled = false } }))
      5 (record { deadline = 105; running = true })

sleep_running : sleep running 0 100 (λ us. us) 5000 ≡ some (asleep, suspended)
unfolding sleep nanos_from_now arm_timeout get_task_scheduler get_task get_scheduler
sleep_running = refl

-- Then it is woken.
abbrev cleared : Kernel
cleared = put_obj asleep 5 (record { deadline = 0; running = true })

woken_while_asleep : unsleep asleep 5 ≡ some cleared
unfolding unsleep cancel get_task_scheduler get_task get_scheduler
woken_while_asleep = refl

woken_due_example : is_eligible cleared 101 5 ≡ can_retain cleared 5 && not (cleared.objs 5).running
woken_due_example =
    woken_due 5 101
      (Reach.wakes
        (Reach.sleeps awake-Reach 0 100 (λ us. us) 5000 5 refl refl (asleep, suspended)
          sleep_running)
        5 cleared woken_while_asleep)
      refl refl

-- Thread 5 has identifier 0, so a call with it wakes the thread, asleep or not.
wakeup-waking_example :
    wakeup objects asleep 0 (λ i. 0)
    ≡ some (waking asleep (first (λ x. (asleep.threads x).identifier == 0) (asleep.thread_lists 0)))
wakeup-waking_example =
    wakeup-waking objects asleep 0 (λ i. 0)
      (record { joined = refl; word = omega arith; task_word = omega arith }, tt) (refl, tt)

found_asleep :
    waking asleep (first (λ x. (asleep.threads x).identifier == 0) (asleep.thread_lists 0))
    ≡ (cleared, empty)
unfolding first
found_asleep = refl
