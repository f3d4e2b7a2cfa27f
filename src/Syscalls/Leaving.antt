-- ===== src/Syscalls/Leaving.antt =====
-- The system calls of kernel/src/syscall/task.cpp and thread.cpp that a thread does not come back from,
-- for the scheduler.
use alux.Prelude.{
  ℕ, ◌≡◌, inl, refl, true, if◌then◌else◌, Bool, Option, none, some, [], LinkedList, Returns,
  Returns->>=, arith,
}
use alux.Kernel.{Kernel, Garbage}
use alux.Scheduler.Safely.{Safely-trans, unhold-Safely}
use alux.Syscalls.Console
use alux.Syscalls.Threads
use alux.Tasks.HoldScope.{Cpu, HoldScope, Entry, entered, exited, construct, destroy, set_holding}
use alux.Tasks.HoldScope as scopes
use alux.Tasks.Inside.{IsCalling, Starts, Enters, held_by, construct-Starts, held_by-Safely}
use alux.Tasks.Settled.{kill-Orderly, kill_task-Orderly, exited-IsSettled, unhold-marks}
use alux.Tasks.Steady.{Orderly, Orderly-trans}
use alux.Tasks.Stored
use alux.Threads.Access.{get_scheduler}
use alux.Threads.Counts
use alux.Tasks.Task
use alux.Tasks.Task.{kill_reason_abort, kill_reason_normal}
use alux.Scheduler.Collector.{throw_away}
use alux.Syscalls.Harmless.{IsHarmless, turned_away-IsHarmless}

get_scheduler-unhold :
    (L : LinkedList Garbage) (k : Kernel) (i : ℕ)
    → (k.tasks i).in_scheduler ≡ true
    → get_scheduler (Stored.unhold L k i) i ≡ some tt
unfolding Stored.unhold throw_away Task.unhold get_scheduler
get_scheduler-unhold L k i h = ground arith

kill-in_scheduler :
    (k : Kernel) (i status : ℕ)
    → (k.tasks i).in_scheduler ≡ true
    → ((Stored.kill k i status).tasks i).in_scheduler ≡ true
unfolding Stored.kill Task.kill
kill-in_scheduler k i status h = ground arith

module _ (L : LinkedList Garbage) (s : Cpu) (th : ℕ) (waits : Bool)
    (v : IsCalling s.kernel th) where
  -- The thread does not come back.
  abbrev pub Lost : Cpu → Type 0
  Lost s' = IsHarmless s th waits (none, (s', []))

  abbrev exited_by : Kernel → Kernel
  exited_by k = Stored.unhold L k (s.kernel.threads th).task

  lost-IsHarmless :
      (k : Kernel)
      → Orderly (held_by s.kernel th) k
      → (k.threads th).killed ≡ true
      → IsHarmless s th waits (none, (record { kernel = exited_by k; critical = true }, []))
  unfolding Stored.unhold throw_away
  lost-IsHarmless k w killed = record {
    safe =
        Safely-trans (held_by-Safely s.kernel th)
          (Safely-trans w.safe (unhold-Safely L k (s.kernel.threads th).task));
    critical = refl;
    lost = λ e. inl (ground (arith, killed));
    settled = exited-IsSettled L s.kernel k th w.keeps killed;
    others = λ x n.
        rw (unhold-marks L k (s.kernel.threads th).task x)
          (λ h. ground (arith, w.keeps.holding x, h, n));
    back = λ n. absurd (n refl);
  }

  home_scheduled : ((held_by s.kernel th).tasks (s.kernel.threads th).task).in_scheduler ≡ true
  home_scheduled = ground (arith, v.scheduled)

  dead : ((Counts.kill (held_by s.kernel th) th).threads th).killed ≡ true
  unfolding Counts.kill
  dead = ground arith

  -- What a scope that was entered leaves when the thread exits from it
  exit_task-IsHarmless :
      (scope : HoldScope) (s' : Cpu) (status : ℕ)
      → Enters s th scope s'
      → Returns (scopes.exit_task L scope status s') Lost
  unfolding scopes.exit_task
  exit_task-IsHarmless scope s' status w =
      let home = (s.kernel.threads th).task in
      let k = Stored.kill (Counts.kill (held_by s.kernel th) th) home status in
      rw
        (
          w.kernel,
          w.thread,
          w.task,
          get_scheduler-unhold L k home
              (kill-in_scheduler (Counts.kill (held_by s.kernel th) th) home status home_scheduled),
        )
        (lost-IsHarmless k
          (Orderly-trans (kill-Orderly (held_by s.kernel th) th)
            (kill_task-Orderly (Counts.kill (held_by s.kernel th) th) home status))
          dead)

  exit_thread-IsHarmless :
      (scope : HoldScope) (s' : Cpu)
      → Enters s th scope s'
      → Returns (scopes.exit_thread L scope s') Lost
  unfolding scopes.exit_thread
  exit_thread-IsHarmless scope s' w =
      let k = Counts.kill (held_by s.kernel th) th in
      rw
        (
          w.kernel,
          w.thread,
          w.task,
          get_scheduler-unhold L k (s.kernel.threads th).task home_scheduled,
        )
        (lost-IsHarmless k (kill-Orderly (held_by s.kernel th) th) dead)

  pub exit-IsHarmless :
      (current : Option ℕ) (aborted : Bool)
      → current ≡ some th
      → s.critical ≡ true
      → Returns (Console.exit L s current aborted) Lost
  unfolding Console.exit
  exit-IsHarmless current aborted e crit =
      rw e (Returns->>= (Starts s th) Lost (construct s (some th)) _ (construct-Starts s th v) left)
    where
      left :
          (o : Entry)
          → Starts s th o
          → Returns
              (Console.leave L (if aborted then kill_reason_abort else kill_reason_normal) o)
              Lost
      left (entered scope s') w = exit_task-IsHarmless scope s' _ w
      left (exited s') w = turned_away-IsHarmless s th waits s' crit v w

  pub exit_thread_call-IsHarmless :
      (current : Option ℕ)
      → current ≡ some th
      → s.critical ≡ true
      → Returns (Threads.exit_thread L s current) Lost
  unfolding Threads.exit_thread
  exit_thread_call-IsHarmless current e crit =
      rw e (Returns->>= (Starts s th) Lost (construct s (some th)) _ (construct-Starts s th v) left)
    where
      left : (o : Entry) → Starts s th o → Returns (Threads.leave_thread L o) Lost
      left (entered scope s') w = exit_thread-IsHarmless scope s' w
      left (exited s') w = turned_away-IsHarmless s th waits s' crit v w
