-- ===== src/Tasks/Settled.antt =====
-- The state of the kernel between system calls: every scope of kernel/src/tasks/hold-scope.cpp has been
-- left, or its thread has been killed in it.
use alux.Prelude.{ℕ, ◌≡◌, refl, true, false, some, LinkedList, All-at, arith}
use alux.Kernel.{Kernel, Garbage}
use alux.Scheduler.Collector.{throw_away}
use alux.Scheduler.Exclusion.{Inv}
use alux.Scheduler.Safely.{kill-Safely, kill_task-Safely}
use alux.Tasks.HoldScope.{set_holding}
use alux.Tasks.Inside.{IsCalling, held_by}
use alux.Tasks.Stored
use alux.Tasks.Task
use alux.Threads.Counts
use alux.Tasks.Steady.{IsOutside, IsSettled, Keeps, Orderly, Stays, Stays-Placed, Steady-Keeps}

pub kill-Orderly : (k : Kernel) (th : ℕ) → Orderly k (Counts.kill k th)
unfolding Counts.kill
kill-Orderly k th = record {
  safe = kill-Safely k th;
  keeps = Steady-Keeps record {
    stays = record {
      in_task = λ x. ground arith;
      task = λ x. ground arith;
      in_scheduler = λ i. refl;
      lists = λ i. refl;
      terminals = λ p e. e;
    };
    holds = λ i. refl;
    holding = λ x. ground arith;
    killed = λ x d. ground (arith, d);
  };
}

pub kill_task-Orderly : (k : Kernel) (i status : ℕ) → Orderly k (Stored.kill k i status)
unfolding Stored.kill Task.kill
kill_task-Orderly k i status = record {
  safe = kill_task-Safely k i status;
  keeps = Steady-Keeps record {
    stays = record {
      in_task = λ x. refl;
      task = λ x. refl;
      in_scheduler = λ j. ground arith;
      lists = λ j. refl;
      terminals = λ p e. e;
    };
    holds = λ j. ground arith;
    holding = λ x. refl;
    killed = λ x d. d;
  };
}

held_by-Stays : (k : Kernel) (th : ℕ) → Stays k (held_by k th)
held_by-Stays k th = record {
  in_task = λ x. ground arith;
  task = λ x. ground arith;
  in_scheduler = λ i. ground arith;
  lists = λ i. refl;
  terminals = λ p e. e;
}

unhold-Stays : (L : LinkedList Garbage) (k : Kernel) (i : ℕ) → Stays k (Stored.unhold L k i)
unfolding Stored.unhold Task.unhold throw_away
unhold-Stays L k i = record {
  in_task = λ x. ground arith;
  task = λ x. ground arith;
  in_scheduler = λ j. ground arith;
  lists = λ j. ground arith;
  terminals = λ p e. ground (arith, e);
}

unmarked-Stays : (k : Kernel) (th : ℕ) → Stays k (set_holding k th false)
unmarked-Stays k th = record {
  in_task = λ x. ground arith;
  task = λ x. ground arith;
  in_scheduler = λ i. refl;
  lists = λ i. refl;
  terminals = λ p e. e;
}

-- What the body of a scope leaves is settled once the scope is left.
pub left-IsSettled :
    (L : LinkedList Garbage) (k k' : Kernel) (th : ℕ)
    → Keeps (held_by k th) k'
    → IsSettled k
    → IsSettled (Stored.unhold L (set_holding k' th false) (k.threads th).task)
unfolding Stored.unhold Task.unhold throw_away
left-IsSettled L k k' th s v = record {
  placed =
      Stays-Placed (unhold-Stays L (set_holding k' th false) (k.threads th).task) (
        Stays-Placed (unmarked-Stays k' th)
          (s.placed (Stays-Placed (held_by-Stays k th) v.placed)));
  unheld = λ i h. ground (arith, s.holds i, s.entered i, v.unheld i, v.unheld (k.threads th).task);
  left = λ x h. ground (arith, s.holding x, s.killed x, v.left x);
}

-- So it is where the thread exits, and has been killed.
pub exited-IsSettled :
    (L : LinkedList Garbage) (k k' : Kernel) (th : ℕ)
    → Keeps (held_by k th) k'
    → (k'.threads th).killed ≡ true
    → IsSettled k
    → IsSettled (Stored.unhold L k' (k.threads th).task)
unfolding Stored.unhold Task.unhold throw_away
exited-IsSettled L k k' th s d v = record {
  placed =
      Stays-Placed (unhold-Stays L k' (k.threads th).task)
        (s.placed (Stays-Placed (held_by-Stays k th) v.placed));
  unheld = λ i h. ground (arith, s.holds i, s.entered i, v.unheld i, v.unheld (k.threads th).task);
  left = λ x h. ground (arith, s.holding x, s.killed x, v.left x, d);
}

-- Leaving a scope touches the mark of no other thread.
pub unhold-marks :
    (L : LinkedList Garbage) (k : Kernel) (i x : ℕ)
    → ((Stored.unhold L k i).threads x).holding_task ≡ (k.threads x).holding_task
unfolding Stored.unhold Task.unhold throw_away
unhold-marks L k i x = ground arith

-- A thread that runs outside of scopes may make calls.
pub settled-IsCalling :
    (k : Kernel) (c th : ℕ)
    → Inv k
    → IsSettled k
    → IsOutside k c
    → k.current c ≡ some th
    → IsCalling k th
settled-IsCalling k c th inv v o e =
    let joined = All-at _ th k.run_queue inv.joined (inv.enqueued c th e) in
    record {
      joined = joined;
      outside = o th e;
      scheduled = v.placed.scheduled th joined;
      small = rw (v.unheld (k.threads th).task (v.placed.scheduled th joined)) (omega arith);
    }
