-- ===== src/Scheduler/Safely.antt =====
-- Steps of the kernel's other code, for the scheduler: kernel/src/scheduler/rr-scheduler.cpp goes on
-- as before.
use alux.Prelude.{ℕ, ◌≡◌, refl, ◌∙◌, LinkedList, arith}
use alux.Kernel.{Kernel, Garbage}
use alux.Scheduler.Collector.{throw_away}
use alux.Scheduler.Exclusion.{Inv, Frame, Frame-Inv}
use alux.Tasks.Stored
use alux.Tasks.Task
use alux.Threads.Counts

-- Every CPU has the thread that it had, and the invariant of the scheduler is kept.
pub record Safely (k k' : Kernel) : Type 0 where
  pub current : (c : ℕ) → k'.current c ≡ k.current c
  pub invariant : Inv k → Inv k'

pub Safely-same : (k : Kernel) → Safely k k
Safely-same k = record { current = λ c. refl; invariant = λ v. v }

pub Safely-trans : {a b c : Kernel} → Safely a b → Safely b c → Safely a c
Safely-trans s t = record {
  current = λ c. t.current c ∙ s.current c;
  invariant = λ v. t.invariant (s.invariant v);
}

pub Frame-Safely : (k k' : Kernel) → Frame k k' → Safely k k'
Frame-Safely k k' f = record { current = f.current; invariant = λ v. Frame-Inv k k' f v }

pub kill-Safely : (k : Kernel) (th : ℕ) → Safely k (Counts.kill k th)
unfolding Counts.kill
kill-Safely k th = Frame-Safely k (Counts.kill k th) record {
  current = λ c. refl;
  run_queue = refl;
  running = λ x. refl;
  in_task = λ x. ground arith;
  words = λ h x. ground (arith, h x);
  task_words = λ h i. h i;
}

pub kill_task-Safely : (k : Kernel) (i status : ℕ) → Safely k (Stored.kill k i status)
unfolding Stored.kill Task.kill
kill_task-Safely k i status = Frame-Safely k (Stored.kill k i status) record {
  current = λ c. refl;
  run_queue = refl;
  running = λ x. refl;
  in_task = λ x. refl;
  words = λ h x. h x;
  task_words = λ h j. ground (arith, h j);
}

pub unhold-Safely : (L : LinkedList Garbage) (k : Kernel) (i : ℕ) → Safely k (Stored.unhold L k i)
unfolding Stored.unhold Task.unhold throw_away
unhold-Safely L k i = Frame-Safely k (Stored.unhold L k i) record {
  current = λ c. ground arith;
  run_queue = ground arith;
  running = λ x. ground arith;
  in_task = λ x. ground arith;
  words = λ h x. ground (arith, h x);
  task_words = λ h j. ground (arith, h j);
}
