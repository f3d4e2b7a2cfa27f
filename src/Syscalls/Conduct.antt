-- ===== src/Syscalls/Conduct.antt =====
-- Every system call of kernel/src/syscall, for the scheduler.
use alux.Prelude.{
  ℕ, ◌≡◌, refl, inl, inr, true, false, Bool, Bool-cases, Option, none, some, List, [], LinkedList,
  IdMap, All, Returns, Returns->>=, occurrences, arith, ◌>>=◌,
}
use alux.Kernel.{Kernel, Garbage}
use alux.Scheduler.Exclusion.{Inv, All-mono}
use alux.Scheduler.Selection.{IsListed}
use alux.Syscalls.Answers.{handle-eq}
use alux.Syscalls.Calls.{Request, keeping, slept, run, handle}
use alux.Syscalls.Console
use alux.Syscalls.Frames.{create_port-Orderly, destroy_port-Orderly, launched-Orderly}
use alux.Syscalls.Delays.{sleep-Orderly, sleep_infinite-Orderly, waking-Orderly}
use alux.Syscalls.Handler.{Syscall, returned, syscall_handler-number_of, syscall_handler_past}
use alux.Syscalls.Harmless.{IsHarmless, Orderly-IsHarmless, Kept-IsHarmless, scoped-IsHarmless}
use alux.Syscalls.Leaving.{Lost, exit-IsHarmless, exit_thread_call-IsHarmless}
use alux.Syscalls.Launching.{launch_thread-launched}
use alux.Syscalls.Ports.{create_port, destroy_port}
use alux.Syscalls.Porting.{IsAttached}
use alux.Syscalls.Quiet.{IsServed, IsNumber, HasForm, is_quiet, run-quiet}
use alux.Syscalls.Results.{Ret, Answer, scoped, empty}
use alux.Syscalls.Threads.{sleep_for, sleep_for_ever, launch_thread, wakeup, exit_thread}
use alux.Syscalls.Waking.{wakeup-waking}
use alux.Tasks.HoldScope.{Cpu, HoldScope}
use alux.Tasks.Steady.{Orderly, Orderly-same}
use alux.Tasks.Inside.{IsCalling, held_by, held_by-Safely}
use alux.Threads.Sleep.{Progress}

-- The calls in which a thread may wait
abbrev pub is_sleep : Option Syscall → Bool
is_sleep (some Syscall.sleep) = true
is_sleep (some Syscall.sleep_infinite) = true
is_sleep _ = false

abbrev HasTerminal : Kernel → Option ℕ → Type 0
HasTerminal k none = Unit
HasTerminal k (some port) = IsAttached k (k.ports port).terminal

-- What the calls rely on that change the kernel: for a launch, the list of the task has an identifier
-- left, and the address is that of no thread in the scheduler; the threads in the list of the task that
-- `WakeupSyscall` goes through are in a task that is in the scheduler; and a port that is destroyed has
-- no terminal, or a live one.
abbrev pub Meets : IdMap → Request → Kernel → ℕ → Option Syscall → Type 0
Meets M q k th (some Syscall.launch_thread) =
    ((n : ℕ) × (ths : List ℕ) × (M.add (k.thread_lists (k.threads th).task) q.addr ≡ some (n, ths)))
    × (occurrences q.addr k.run_queue ≡ 0)
Meets M q k th (some Syscall.wakeup) =
    All (λ x. ((k.threads x).in_task ≡ true) × ((k.tasks (k.threads x).task).in_scheduler ≡ true))
      (k.thread_lists (k.threads th).task)
Meets M q k th (some Syscall.destroy_port) = HasTerminal k q.found
Meets M q k th _ = Unit

module _ (L : LinkedList Garbage) (P : LinkedList ℕ) (M : IdMap) (q : Request) (s : Cpu)
    (cpu th : ℕ) (crit : s.critical ≡ true) (inv : Inv s.kernel)
    (e : s.kernel.current cpu ≡ some th) (v : IsCalling s.kernel th) where
  quiet-IsHarmless :
      (c : Syscall)
      → IsServed q
      → is_quiet (some c) ≡ true
      → Returns (run L P M q s cpu c) (IsHarmless s th (is_sleep (some c)))
  unfolding keeping
  quiet-IsHarmless c w h =
      run-quiet L P M q s cpu th (IsHarmless s th (is_sleep (some c))) c e v.joined w h
        (λ a k. Kept-IsHarmless s th (is_sleep (some c)) (HasForm q c) a crit v k)
        (λ body r.
          scoped-IsHarmless L s (s.kernel.current cpu) th (is_sleep (some c)) _ e crit v
            (λ scope _ _.
              Returns->>= (HasForm q c) (λ r. Orderly (held_by s.kernel th) r.0)
                (body scope (held_by s.kernel th)) _ (r scope (held_by s.kernel th))
                (λ o _. Orderly-same (held_by s.kernel th))))

  slept-IsHarmless :
      (m : Option (Kernel × Progress))
      → Returns m (λ r. Orderly s.kernel r.0)
      → Returns (m >>= λ r. some (slept s r)) (IsHarmless s th true)
  unfolding slept
  slept-IsHarmless m h = Returns->>= (λ r. Orderly s.kernel r.0) (IsHarmless s th true) m _ h waits
    where
      waits : (r : Kernel × Progress) → Orderly s.kernel r.0 → IsHarmless s th true (slept s r)
      waits (k, Progress.returned) w = Orderly-IsHarmless s th true _ v w crit (λ n. cc)
      waits (k, Progress.suspended) w = Orderly-IsHarmless s th true _ v w crit (λ n. inr refl)

  -- A call whose body changes the kernel
  changing-IsHarmless :
      (waits : Bool) (body : HoldScope → Kernel → Option (Kernel × Ret))
      → ((scope : HoldScope)
          → scope.thread ≡ th
          → scope.task ≡ (s.kernel.threads th).task
          → Returns (body scope (held_by s.kernel th)) (λ r. Orderly (held_by s.kernel th) r.0))
      → Returns
          (scoped L s
            (s.kernel.current cpu)
            (λ scope k. body scope k >>= λ r. some (r.0, (r.1, []))))
          (IsHarmless s th waits)
  changing-IsHarmless waits body h =
      scoped-IsHarmless L s (s.kernel.current cpu) th waits _ e crit v (λ scope a b.
        Returns->>= (λ r. Orderly (held_by s.kernel th) r.0)
          (λ r. Orderly (held_by s.kernel th) r.0) (body scope (held_by s.kernel th)) _
          (h scope a b) (λ r w. w))

  launch-Orderly :
      (m : Meets M q s.kernel th (some Syscall.launch_thread))
      → Returns
          (launch_thread L P M
            (held_by s.kernel th)
            (s.kernel.threads th).task
            q.addr
            q.identifier
            q.deadline)
          (λ r. Orderly (held_by s.kernel th) r.0)
  launch-Orderly ((n, ths, f), o) =
      let home = (s.kernel.threads th).task in
      rw
        (launch_thread-launched L P M (held_by s.kernel th) home q.addr q.identifier q.deadline n
          ths (ground (arith, v.scheduled)) (ground (arith, v.small))
          (ground (arith, inv.task_words home)) f)
        (launched-Orderly P (held_by s.kernel th) home q.addr n q.deadline ths o
          (λ y. M.occurrences-add ((held_by s.kernel th).thread_lists home) q.addr n ths y f)
          (ground (arith, v.scheduled)))

  wakeup-Orderly :
      (m : Meets M q s.kernel th (some Syscall.wakeup))
      → Returns
          (wakeup L (held_by s.kernel th) (s.kernel.threads th).task q.args)
          (λ r. Orderly (held_by s.kernel th) r.0)
  wakeup-Orderly m =
      let home = (s.kernel.threads th).task in
      let k = held_by s.kernel th in
      let inv' = (held_by-Safely s.kernel th).invariant inv in
      rw
        (wakeup-waking L k home q.args
          (All-mono _ (IsListed k) (s.kernel.thread_lists home)
            (λ x w. record {
              joined = ground (arith, w.0);
              word = inv'.words x;
              task_word = inv'.task_words (k.threads x).task;
            })
            m)
          (All-mono _ (λ x. (k.tasks (k.threads x).task).in_scheduler ≡ true)
            (s.kernel.thread_lists home) (λ x w. ground (arith, w.1)) m))
        (waking-Orderly k _)

  destroy-Orderly :
      (o : Option ℕ)
      → HasTerminal s.kernel o
      → Returns
          (destroy_port L P M (held_by s.kernel th) o)
          (λ r. Orderly (held_by s.kernel th) r.0)
  unfolding destroy_port
  destroy-Orderly none m = Orderly-same (held_by s.kernel th)
  destroy-Orderly (some port) m = destroy_port-Orderly L P M (held_by s.kernel th) port m

  loud-IsHarmless :
      (c : Syscall)
      → is_quiet (some c) ≡ false
      → Meets M q s.kernel th (some c)
      → Returns (run L P M q s cpu c) (IsHarmless s th (is_sleep (some c)))
  unfolding run sleep_for sleep_for_ever
  loud-IsHarmless Syscall.exit h m =
      Returns->>= (Lost L s th false v) (IsHarmless s th false)
        (Console.exit L s (s.kernel.current cpu) _) _
        (exit-IsHarmless L s th false v (s.kernel.current cpu) _ e crit) (λ r w. w)
  loud-IsHarmless Syscall.exit_thread h m =
      Returns->>= (Lost L s th false v) (IsHarmless s th false)
        (exit_thread L s (s.kernel.current cpu)) _
        (exit_thread_call-IsHarmless L s th false v (s.kernel.current cpu) e crit) (λ r w. w)
  loud-IsHarmless Syscall.launch_thread h m =
      changing-IsHarmless false _ (λ scope a b. rw b (launch-Orderly m))
  loud-IsHarmless Syscall.sleep h m =
      slept-IsHarmless _
        (sleep-Orderly s.kernel cpu th q.now (q.args 0) q.to_ticks e v.joined v.scheduled)
  loud-IsHarmless Syscall.sleep_infinite h m =
      slept-IsHarmless _ (sleep_infinite-Orderly s.kernel cpu th e v.joined v.scheduled)
  loud-IsHarmless Syscall.wakeup h m =
      changing-IsHarmless false _ (λ scope a b. rw b (wakeup-Orderly m))
  loud-IsHarmless Syscall.create_port h m =
      changing-IsHarmless false (λ scope k. some (create_port P M k scope.thread q.addr))
        (λ scope a b. create_port-Orderly P M (held_by s.kernel th) scope.thread q.addr)
  loud-IsHarmless Syscall.destroy_port h m =
      changing-IsHarmless false _ (λ scope a b. destroy-Orderly q.found m)
  loud-IsHarmless _ h m = cc

  -- Every call does no harm.
  run-IsHarmless :
      (c : Syscall)
      → (is_quiet (some c) ≡ true → IsServed q)
      → Meets M q s.kernel th (some c)
      → Returns (run L P M q s cpu c) (IsHarmless s th (is_sleep (some c)))
  run-IsHarmless c w m = elim (Bool-cases (is_quiet (some c))) [
    | inl h ↦ quiet-IsHarmless c (w h) h
    | inr h ↦ loud-IsHarmless c h m
  ]

  returned-IsHarmless :
      (c : Syscall) (a : Answer) (waits : Bool)
      → IsHarmless s th waits a
      → IsHarmless s th waits (returned c a.0, a.1)
  unfolding returned
  returned-IsHarmless c (none, left) waits w = w
  returned-IsHarmless c (some r, left) waits w = record {
    safe = w.safe;
    critical = w.critical;
    lost = λ n. cc;
    settled = w.settled;
    others = w.others;
    back = λ n. w.back (λ e. cc);
  }

  -- `SyscallHandler` does not harm the scheduler. Take the thread of a critical CPU, which is outside of
  -- scopes, and whose task is in the scheduler and can be held once more, killed or not, and a number,
  -- known or not. If it is that of a launch, the task has an identifier left and the new thread an
  -- address at which the scheduler has none; of a wake-up, the threads in the list of the task are in
  -- a task of the scheduler; of the destruction of a port, the port has no terminal or one that is not
  -- severed; of any other call than the eight that change the kernel, the task is a user task, and the
  -- string that it may print ends. Then the handler returns, that is, no assertion fails in it; every
  -- CPU has the thread that it had, and the invariant of the scheduler is kept; the CPU is critical
  -- again; and where the thread does not come back, it has been killed, or the call is one in which it
  -- waits.
  pub handle-IsHarmless :
      (call : Option Syscall) (number : ℕ)
      → (is_quiet call ≡ true → IsServed q)
      → Meets M q s.kernel th call
      → IsNumber call number
      → Returns (handle L P M q s cpu number) (IsHarmless s th (is_sleep call))
  handle-IsHarmless none number w m n =
      rw
        (
          handle-eq L P M q s cpu number crit,
          syscall_handler_past (run L P M q s cpu) (s, []) number n,
        )
        (Orderly-IsHarmless s th _ (some empty, (s, [])) v (Orderly-same s.kernel) crit (λ x. cc))
  handle-IsHarmless (some c) number w m n =
      rw
        (
          handle-eq L P M q s cpu number crit,
          n,
          syscall_handler-number_of (run L P M q s cpu) (s, []) c,
        )
        (Returns->>= (IsHarmless s th (is_sleep (some c))) (IsHarmless s th (is_sleep (some c)))
          (run L P M q s cpu c) _ (run-IsHarmless c w m)
          (λ a r. returned-IsHarmless c a (is_sleep (some c)) r))
