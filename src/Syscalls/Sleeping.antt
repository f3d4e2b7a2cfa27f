-- ===== src/Syscalls/Sleeping.antt =====
-- `SleepSyscall` of kernel/src/syscall/thread.cpp, from the number of the call to the switches of the
-- scheduler.
use alux.Prelude.{
  ℕ, ◌+◌, ◌/◌, ◌^◌, ◌<◌, ◌≡◌, ◌≢◌, refl, subst, true, false, none, some, List, [], LinkedList,
  IdMap, All, All-at, Returns, arith,
}
use alux.Kernel.{Kernel, Garbage}
use alux.Scheduler.Barred.{Spurns}
use alux.Scheduler.Exclusion.{Inv, All-mono}
use alux.Scheduler.Exits.{Event, Never, Within, set_timeout-Never}
use alux.Scheduler.Switch.{yield_thread, set_timeout}
use alux.Syscalls.Answers.{handle-eq}
use alux.Syscalls.Calls.{Request, run, handle, slept}
use alux.Syscalls.Handler.{Syscall, returned, syscall_handler-number_of}
use alux.Syscalls.Threads.{sleep_for}
use alux.Tasks.HoldScope.{Cpu}
use alux.Threads.Access.{get_task, get_scheduler, get_task_scheduler}
use alux.Threads.Sleep.{suspended, put_sleep, arm_timeout, nanos_from_now, sleep}

-- The deadline of a sleep, unless it does not fit 64 bits.
abbrev pub deadline_of : Request → ℕ
deadline_of q = q.now + q.to_ticks (q.args 0 / 1000)

-- The thread is marked as sleeping.
abbrev dozing : Kernel → ℕ → Kernel
dozing k x = put_sleep k x (record ((k.threads x).sleep_state) { sleeping = true })

dozing-Inv : (k : Kernel) (x : ℕ) → Inv k → Inv (dozing k x)
dozing-Inv k x v = record {
  joined =
      All-mono (λ y. (k.threads y).in_task ≡ true) (λ y. ((dozing k x).threads y).in_task ≡ true)
        k.run_queue (λ y h. ground arith) v.joined;
  enqueued = v.enqueued;
  marked = v.marked;
  apart = v.apart;
  words = λ y. ground (arith, v.words y);
  task_words = v.task_words;
}

sleep-suspended :
    (q : Request) (k : Kernel) (cpu x : ℕ)
    → Inv k
    → k.current cpu ≡ some x
    → (k.tasks (k.threads x).task).in_scheduler ≡ true
    → (k.threads x).sleep_state.cancelled ≡ false
    → q.args 0 ≢ 0
    → deadline_of q < 2 ^ 64
    → sleep_for k cpu q.now q.to_ticks q.args
      ≡ some (arm_timeout (dozing k x) x (deadline_of q), suspended)
unfolding sleep_for sleep nanos_from_now get_task_scheduler get_task get_scheduler
sleep-suspended q k cpu x v e s fresh some_time fits =
    let joined = All-at _ x k.run_queue v.joined (v.enqueued cpu x e) in ground (arith, joined)

module _ (L : LinkedList Garbage) (P : LinkedList ℕ) (M : IdMap) where
  set_timeout-eq :
      (k : Kernel) (cpu x deadline now : ℕ) (scale : ℕ → ℕ)
      → k.current cpu ≡ some x
      → set_timeout L P k cpu deadline now scale
        ≡ yield_thread L P (arm_timeout k x deadline) cpu now scale
  unfolding set_timeout arm_timeout
  set_timeout-eq k cpu x deadline now scale e = rw e refl

  -- Call 23 up to the release of the lock in `SetTimeout`
  handle-sleep :
      (q : Request) (s : Cpu) (cpu x : ℕ)
      → s.critical ≡ true
      → Inv s.kernel
      → s.kernel.current cpu ≡ some x
      → (s.kernel.tasks (s.kernel.threads x).task).in_scheduler ≡ true
      → (s.kernel.threads x).sleep_state.cancelled ≡ false
      → q.args 0 ≢ 0
      → deadline_of q < 2 ^ 64
      → handle L P M q s cpu 23
        ≡ some (none, (record s { kernel = arm_timeout (dozing s.kernel x) x (deadline_of q) }, []))
  unfolding run slept returned
  handle-sleep q s cpu x crit v e sched fresh some_time fits =
      rw
        (
          handle-eq L P M q s cpu 23 crit,
          syscall_handler-number_of (run L P M q s cpu) (s, []) Syscall.sleep,
          sleep-suspended q s.kernel cpu x v e sched fresh some_time fits,
        )
        refl

  -- Only a wake-up of the thread itself ends `SleepSyscall` early. For the current thread of a critical
  -- CPU, not the collector's, whose task is in the scheduler, and which has not been woken before, and
  -- for a time other than 0 whose end fits 64 bits: the handler gives nothing back for call 23, and the
  -- thread gives up its CPU in it, if this is before the end. Whichever CPUs then switch at times before
  -- the end, whatever threads are killed and whatever the deadlines of other threads are set to in
  -- between, as by waking them or putting them to sleep, no assertion fails and no switch resumes the
  -- thread.
  pub sleep-Never :
      (q : Request) (s : Cpu) (cpu x now : ℕ) (scale : ℕ → ℕ) (es : List (Event L P))
      → s.critical ≡ true
      → Inv s.kernel
      → s.kernel.current cpu ≡ some x
      → x ≢ s.kernel.collector_thread
      → (s.kernel.tasks (s.kernel.threads x).task).in_scheduler ≡ true
      → (s.kernel.threads x).sleep_state.cancelled ≡ false
      → q.args 0 ≢ 0
      → deadline_of q < 2 ^ 64
      → now < deadline_of q
      → All (Within L P (λ t. t < deadline_of q) (λ th. th ≢ x)) es
      → Returns (handle L P M q s cpu 23) (λ r.
        (r.0 ≡ none)
        × Returns
            (yield_thread L P r.1.0.kernel cpu now scale)
            (λ o. Spurns x o.1 × Never L P scale o.0 x es))
  sleep-Never q s cpu x now scale es crit v e n sched fresh some_time fits lt h =
      rw (handle-sleep q s cpu x crit v e sched fresh some_time fits) (
        refl,
        subst (λ o. Returns o (λ r. Spurns x r.1 × Never L P scale r.0 x es))
            (set_timeout-eq (dozing s.kernel x) cpu x (deadline_of q) now scale e)
            (set_timeout-Never L P (dozing s.kernel x) cpu now (deadline_of q) x scale es
              (dozing-Inv s.kernel x v) e n lt h),
      )
