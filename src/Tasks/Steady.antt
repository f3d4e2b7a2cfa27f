-- ===== src/Tasks/Steady.antt =====
-- Code that leaves the scopes of kernel/src/tasks/hold-scope.cpp and the places of threads and tasks as
-- they are.
use alux.Prelude.{occurrences, ℕ, ◌<◌, ◌≡◌, refl, ◌∙◌, true, false, none, some, arith}
use alux.Kernel.{Kernel}
use alux.Scheduler.Exclusion.{Frame}
use alux.Scheduler.Safely.{Safely, Safely-same, Safely-trans, Frame-Safely}

-- Every thread that is in a task is in one that the scheduler has, the lists of the tasks hold such
-- threads, and no port has a terminal.
pub record Placed (k : Kernel) : Type 0 where
  pub scheduled :
      (x : ℕ) → (k.threads x).in_task ≡ true → (k.tasks (k.threads x).task).in_scheduler ≡ true
  pub listed : (i x : ℕ) → 0 < occurrences x (k.thread_lists i) → (k.threads x).in_task ≡ true
  pub terminals : (p : ℕ) → (k.ports p).terminal ≡ none

-- Code that moves no thread and no task.
pub record Stays (k k' : Kernel) : Type 0 where
  pub in_task : (x : ℕ) → (k'.threads x).in_task ≡ (k.threads x).in_task
  pub task : (x : ℕ) → (k'.threads x).task ≡ (k.threads x).task
  pub in_scheduler : (i : ℕ) → (k'.tasks i).in_scheduler ≡ (k.tasks i).in_scheduler
  pub lists : (i : ℕ) → k'.thread_lists i ≡ k.thread_lists i
  pub terminals : (p : ℕ) → (k.ports p).terminal ≡ none → (k'.ports p).terminal ≡ none

pub Stays-Placed : {k k' : Kernel} → Stays k k' → Placed k → Placed k'
Stays-Placed {k} s v = record {
  scheduled = λ x h. rw (s.in_scheduler _, s.task x) (v.scheduled x (ground (arith, s.in_task x)));
  listed = λ i x h. ground (arith, s.in_task x, s.lists i, v.listed i x);
  terminals = λ p. s.terminals p (v.terminals p);
}

-- No task of the scheduler is held, and a thread that is still marked as inside a scope has been
-- killed there.
pub record IsSettled (k : Kernel) : Type 0 where
  pub placed : Placed k
  pub unheld : (i : ℕ) → (k.tasks i).in_scheduler ≡ true → (k.tasks i).hold_count ≡ 0
  pub left : (x : ℕ) → (k.threads x).holding_task ≡ true → (k.threads x).killed ≡ true

-- The thread of the CPU is outside of scopes.
abbrev pub IsOutside : Kernel → ℕ → Type 0
IsOutside k c = (x : ℕ) → k.current c ≡ some x → (k.threads x).holding_task ≡ false

-- Code that enters and leaves no scope.
pub record Keeps (k k' : Kernel) : Type 0 where
  pub placed : Placed k → Placed k'
  pub entered : (i : ℕ) → (k'.tasks i).in_scheduler ≡ true → (k.tasks i).in_scheduler ≡ true
  pub holds : (i : ℕ) → (k'.tasks i).hold_count ≡ (k.tasks i).hold_count
  pub holding : (x : ℕ) → (k'.threads x).holding_task ≡ true → (k.threads x).holding_task ≡ true
  pub killed :
      (x : ℕ)
      → (k'.threads x).holding_task ≡ true
      → (k.threads x).killed ≡ true
      → (k'.threads x).killed ≡ true

-- Code that moves no thread and no task, and enters and leaves no scope
pub record Steady (k k' : Kernel) : Type 0 where
  pub stays : Stays k k'
  pub holds : (i : ℕ) → (k'.tasks i).hold_count ≡ (k.tasks i).hold_count
  pub holding : (x : ℕ) → (k'.threads x).holding_task ≡ (k.threads x).holding_task
  pub killed : (x : ℕ) → (k.threads x).killed ≡ true → (k'.threads x).killed ≡ true

pub Steady-same : (k : Kernel) → Steady k k
Steady-same k = record {
  stays = record {
    in_task = λ x. refl;
    task = λ x. refl;
    in_scheduler = λ i. refl;
    lists = λ i. refl;
    terminals = λ p e. e;
  };
  holds = λ i. refl;
  holding = λ x. refl;
  killed = λ x d. d;
}

pub Steady-trans : {a b c : Kernel} → Steady a b → Steady b c → Steady a c
Steady-trans s t = record {
  stays = record {
    in_task = λ x. t.stays.in_task x ∙ s.stays.in_task x;
    task = λ x. t.stays.task x ∙ s.stays.task x;
    in_scheduler = λ i. t.stays.in_scheduler i ∙ s.stays.in_scheduler i;
    lists = λ i. t.stays.lists i ∙ s.stays.lists i;
    terminals = λ p e. t.stays.terminals p (s.stays.terminals p e);
  };
  holds = λ i. t.holds i ∙ s.holds i;
  holding = λ x. t.holding x ∙ s.holding x;
  killed = λ x d. t.killed x (s.killed x d);
}

pub Steady-Keeps : {k k' : Kernel} → Steady k k' → Keeps k k'
Steady-Keeps s = record {
  placed = Stays-Placed s.stays;
  entered = λ i h. ground (arith, s.stays.in_scheduler i);
  holds = s.holds;
  holding = λ x h. ground (arith, s.holding x);
  killed = λ x h d. s.killed x d;
}

pub Keeps-same : (k : Kernel) → Keeps k k
Keeps-same k = record {
  placed = λ v. v;
  entered = λ i h. h;
  holds = λ i. refl;
  holding = λ x h. h;
  killed = λ x h d. d;
}

pub Keeps-trans : {a b c : Kernel} → Keeps a b → Keeps b c → Keeps a c
Keeps-trans s t = record {
  placed = λ v. t.placed (s.placed v);
  entered = λ i h. s.entered i (t.entered i h);
  holds = λ i. t.holds i ∙ s.holds i;
  holding = λ x h. s.holding x (t.holding x h);
  killed = λ x h d. t.killed x h (s.killed x (t.holding x h) d);
}

pub Keeps-IsSettled : {k k' : Kernel} → Keeps k k' → IsSettled k → IsSettled k'
Keeps-IsSettled s v = record {
  placed = s.placed v.placed;
  unheld = λ i h. s.holds i ∙ v.unheld i (s.entered i h);
  left = λ x h. s.killed x h (v.left x (s.holding x h));
}

-- Code inside a scope: the scheduler goes on as before, and no other scope is entered or left.
pub record Orderly (k k' : Kernel) : Type 0 where
  pub safe : Safely k k'
  pub keeps : Keeps k k'

pub Orderly-same : (k : Kernel) → Orderly k k
Orderly-same k = record { safe = Safely-same k; keeps = Keeps-same k }

pub Orderly-trans : {a b c : Kernel} → Orderly a b → Orderly b c → Orderly a c
Orderly-trans s t = record {
  safe = Safely-trans s.safe t.safe;
  keeps = Keeps-trans s.keeps t.keeps;
}

pub Frame-Orderly : (k k' : Kernel) → Frame k k' → Steady k k' → Orderly k k'
Frame-Orderly k k' f s = record { safe = Frame-Safely k k' f; keeps = Steady-Keeps s }
