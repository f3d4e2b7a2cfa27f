-- ===== src/Syscalls/Safety.antt =====
-- Steps of the CPUs of kernel/src/scheduler/rr-scheduler.cpp and system calls of kernel/src/syscall, one
-- after the other.
use alux.Prelude.{
  false, ℕ, ◌≡◌, ◌≢◌, refl, ◌∙◌, Bool, true, Option, none, some, LinkedList, IdMap, Option-cases,
  Bool-cases, ◌==◌, inl, inr, Returns, Returns->>=, Returns-both, Returns-mono, arith, ◌>>=◌,
}
use alux.Kernel.{Kernel, Garbage}
use alux.Scheduler.Settling.{Calm, Orderly-Calm, switch-Calm}
use alux.Scheduler.Exclusion.{Inv}
use alux.Scheduler.Timer as cpus
use alux.Scheduler.Sound.{perform-IsSound}
use alux.Scheduler.Sound.{IsSound, running_thread, switched-IsSound}
use alux.Scheduler.Switch.{resumes, waits, yield_thread, switch, set_timeout}
use alux.Scheduler.Timer.{
  Machine, Step, goes_on, starts, fires, yields, exits, times_out, kills, clears, fire,
}
use alux.Syscalls.Calls.{handle}
use alux.Syscalls.Conduct.{is_sleep, handle-IsHarmless}
use alux.Syscalls.Delays.{arm_timeout-Orderly, put_sleep-Orderly}
use alux.Syscalls.Harmless.{IsHarmless}
use alux.Syscalls.Results.{Answer, Left, Ret}
use alux.Syscalls.System.{Event, does, calls, wakes, after, perform}
use alux.Tasks.HoldScope.{Cpu}
use alux.Tasks.Settled.{kill-Orderly, settled-IsCalling}
use alux.Tasks.Steady.{IsOutside}
use alux.Threads.Access.{get_task, get_scheduler, get_task_scheduler}
use alux.Threads.Counts.{kill}
use alux.Threads.Sleep.{arm_timeout, finish_sleep}
use alux.Threads.Exit.{exit_current}
use alux.Syscalls.Requests.{IsOrderly, MayDo, May, MayDo-Allowed, settled-Meets}

-- Both halves of the invariant
orderly :
    (o : Option Machine) → Returns o IsSound → Returns o (λ m. Calm m.kernel) → Returns o IsOrderly
orderly o h c =
    Returns-mono (λ m. IsSound m × Calm m.kernel) IsOrderly o (Returns-both _ _ o h c)
      (λ m w. record { sound = w.0; calm = w.1 })

module _ (L : LinkedList Garbage) (P : LinkedList ℕ) where
  -- A switch on a kernel between system calls
  switched-Calm :
      (m : Machine) (k : Kernel) (cpu now : ℕ) (scale : ℕ → ℕ)
      → Inv k
      → Calm k
      → Returns (switch L P k cpu now scale >>= λ r. some (goes_on m cpu r)) (λ m'. Calm m'.kernel)
  switched-Calm m k cpu now scale v w =
      Returns->>= (λ r. Calm r.0) (λ m'. Calm m'.kernel) (switch L P k cpu now scale) _
        (switch-Calm L P k cpu now scale v w.0 (λ c n. w.1 c)) (λ r w'. w')

  -- The CPUs by themselves
  step-Calm :
      (scale : ℕ → ℕ) (m : Machine) (s : Step)
      → IsOrderly m
      → MayDo m s
      → Returns (cpus.perform L P scale m s) (λ m'. Calm m'.kernel)
  unfolding fire yield_thread exit_current set_timeout get_task_scheduler get_task get_scheduler
      kill arm_timeout
  step-Calm scale m (starts cpu now) v h =
      switched-Calm m m.kernel cpu now scale v.sound.scheduler v.calm
  step-Calm scale m (fires cpu now) v h = elim (Option-cases (m.activity cpu)) [
    | inl e ↦ absurd (h e)
    | inr (resumes th t, e) ↦
        let q = v.sound.agrees cpu in
        let current : m.kernel.current cpu ≡ some th = rw e at q in
        rw (e, current) (switched-Calm m m.kernel cpu now scale v.sound.scheduler v.calm)
    | inr (waits t, e) ↦ rw e (switched-Calm m m.kernel cpu now scale v.sound.scheduler v.calm)
  ]
  step-Calm scale m (yields cpu now) v h =
      let (th, e) = running_thread m cpu v.sound h in
      rw e (switched-Calm m m.kernel cpu now scale v.sound.scheduler v.calm)
  step-Calm scale m (exits cpu now) v h =
      let (th, e) = running_thread m cpu v.sound h in
      let c = settled-IsCalling m.kernel cpu th v.sound.scheduler v.calm.0 (v.calm.1 cpu) e in
      let here : get_task_scheduler (kill m.kernel th) th ≡ some tt =
        ground (arith, c.joined, c.scheduled) in
      let w = kill-Orderly m.kernel th in
      rw (e, here)
        (switched-Calm m (kill m.kernel th) cpu now scale (w.safe.invariant v.sound.scheduler)
          (Orderly-Calm w v.calm))
  step-Calm scale m (times_out cpu deadline now) v h =
      let (th, e) = running_thread m cpu v.sound h in
      let w = arm_timeout-Orderly m.kernel th deadline in
      rw e (
        switched-Calm m (arm_timeout m.kernel th deadline) cpu now scale
          (w.safe.invariant v.sound.scheduler) (Orderly-Calm w v.calm))
  step-Calm scale m (kills th) v h = Orderly-Calm (kill-Orderly m.kernel th) v.calm
  step-Calm scale m (clears th) v h = Orderly-Calm (arm_timeout-Orderly m.kernel th 0) v.calm

-- Threads that make no call stay outside of scopes.
others-IsOutside :
    (m : Machine) (cpu th : ℕ) (may_wait : Bool) (a : Answer)
    → IsOrderly m
    → m.kernel.current cpu ≡ some th
    → IsHarmless (record { kernel = m.kernel; critical = true }) th may_wait a
    → (c : ℕ) → c ≢ cpu
    → IsOutside a.1.0.kernel c
others-IsOutside m cpu th may_wait a v e w c n x h =
    ground (arith, w.safe.current c, w.others x, v.calm.1 c x, v.sound.scheduler.apart c cpu x)

-- The thread comes back.
back-IsOrderly :
    (m : Machine) (cpu th : ℕ) (may_wait : Bool) (r : Ret) (left : Left)
    → IsOrderly m
    → m.kernel.current cpu ≡ some th
    → IsHarmless (record { kernel = m.kernel; critical = true }) th may_wait (some r, left)
    → IsOrderly (record m { kernel = left.0.kernel })
back-IsOrderly m cpu th may_wait r left v e w = record {
  sound = record {
    scheduler = w.safe.invariant v.sound.scheduler;
    agrees = λ c. rw (w.safe.current c) (v.sound.agrees c);
  };
  calm = (
    w.settled v.calm.0,
    λ c x h. elim (Bool-cases (c == cpu)) [
      | inl q ↦ let b = w.back (λ n. cc) in ground (arith, b, w.safe.current cpu)
      | inr q ↦ others-IsOutside m cpu th may_wait (some r, left) v e w c (ground arith) x h
    ],
  );
}

module _ (L : LinkedList Garbage) (P : LinkedList ℕ) where
  -- What follows the call keeps the invariant.
  pub after-IsOrderly :
      (scale : ℕ → ℕ) (m : Machine) (cpu now th : ℕ) (may_wait : Bool) (a : Answer)
      → IsOrderly m
      → m.kernel.current cpu ≡ some th
      → IsHarmless (record { kernel = m.kernel; critical = true }) th may_wait a
      → Returns (after L P scale m cpu now a) IsOrderly
  unfolding after yield_thread
  after-IsOrderly scale m cpu now th may_wait (some r, left) v e w =
      back-IsOrderly m cpu th may_wait r left v e w
  after-IsOrderly scale m cpu now th may_wait (none, (s, log)) v e w =
      let inv = w.safe.invariant v.sound.scheduler in
      rw (w.safe.current cpu ∙ e) (
        orderly _ (switched-IsSound L P m s.kernel cpu now scale v.sound inv w.safe.current) (
          Returns->>= (λ r. Calm r.0) (λ m'. Calm m'.kernel) (switch L P s.kernel cpu now scale) _
            (switch-Calm L P s.kernel cpu now scale inv (w.settled v.calm.0)
              (others-IsOutside m cpu th may_wait (none, (s, log)) v e w))
            (λ r c. c)))

-- The end of a sleep
woken-IsOrderly :
    (m : Machine) (th : ℕ)
    → IsOrderly m
    → IsOrderly (record m { kernel = finish_sleep m.kernel th })
unfolding finish_sleep
woken-IsOrderly m th v =
    let w = put_sleep-Orderly m.kernel th (record { sleeping = false; cancelled = false }) in
    record {
      sound = record {
        scheduler = w.safe.invariant v.sound.scheduler;
        agrees = λ c. rw (w.safe.current c) (v.sound.agrees c);
      };
      calm = Orderly-Calm w v.calm;
    }

module _ (L : LinkedList Garbage) (P : LinkedList ℕ) (M : IdMap) where
  -- No step that may happen fails an assertion, and each keeps the invariant: that of the scheduler;
  -- each CPU runs its current thread or waits; that thread is outside of scopes; no task of the
  -- scheduler is held, and a thread still marked as inside a scope has been killed there; the threads
  -- that are in a task or in its list are in one that the scheduler has; and no port has a terminal.
  -- A step is one of a CPU itself, as a start, a timer, a timeout or an exit; the end of the sleep of
  -- the thread that a CPU runs; or a system call by number of that thread, with the switch of the CPU
  -- where the thread does not come back from it. A step may happen on these conditions: a CPU is
  -- started once and before its timer fires; calls are made on a CPU that runs a thread; a thread is
  -- launched at an address at which the scheduler has none, with an identifier left in its task; and
  -- the calls other than the eight that change the kernel come from a user task, with a string that
  -- ends if they print one.
  pub event-IsOrderly :
      (scale : ℕ → ℕ) (m : Machine) (s : Event)
      → IsOrderly m
      → May M m s
      → Returns (perform L P M scale m s) IsOrderly
  event-IsOrderly scale m (does step) v h =
      orderly (cpus.perform L P scale m step)
        (perform-IsSound L P scale m step v.sound (MayDo-Allowed m step v h))
        (step-Calm L P scale m step v h)
  event-IsOrderly scale m (wakes cpu) v (th, e, s) = rw e (woken-IsOrderly m th v)
  event-IsOrderly scale m (calls cpu now q number) v (call, h) =
      let (th, e) = running_thread m cpu v.sound h.running in
      let s : Cpu = record { kernel = m.kernel; critical = true } in
      Returns->>= (IsHarmless s th (is_sleep call)) IsOrderly (handle L P M q s cpu number) _
        (handle-IsHarmless L P M q s cpu th refl v.sound.scheduler e
          (settled-IsCalling m.kernel cpu th v.sound.scheduler v.calm.0 (v.calm.1 cpu) e) call
          number h.served (settled-Meets M q m.kernel th call v.calm.0 (λ f. h.room f th e))
          h.is_number)
        (λ a w. after-IsOrderly L P scale m cpu now th (is_sleep call) a v e w)
