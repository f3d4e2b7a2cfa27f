-- ===== src/Threads/References.antt =====
-- The references that threads have to their tasks: `Thread::Retain`, `Release` and `Kill` keep each
-- task's retain count equal to what its threads and its other users account for.
use alux.Prelude.{
  ℕ, ◌+◌, ◌^◌, ◌<◌, ◌≡◌, ◌≢◌, refl, inl, inr, subst, Bool, true, false, ◌&&◌, ◌==◌, if◌then◌else◌,
  Bool-cases, Option, some, LinkedList, Returns, occurrences, sum_by, update, sum-update_absent,
  sum-update_once, le-sum_by, inc32, dec32, arith,
}
use alux.Kernel.{Kernel, Thread, Garbage, thread_garbage, put_thread}
use alux.Scheduler.Collector.{throw_away}
use alux.Tasks.Task
use alux.Tasks.Stored
use alux.Threads.Counts.{retain, release, kill}

-- What a thread in its task's list accounts for: a reference for each of its own, and one more while
-- it waits to be deallocated after a kill.
abbrev pub weight : Thread → ℕ
weight t = t.retain_count + (if (t.retain_count == 0) && t.killed then 1 else 0)

abbrev pub thread_references : Kernel → ℕ → ℕ
thread_references k task = sum_by weight k.threads (k.thread_lists task)

-- `others task` is the number of references to `task` that no thread of it accounts for.
pub record Counted (others : ℕ → ℕ) (k : Kernel) : Type 0 where
  pub listed :
      (x : ℕ) → (k.threads x).in_task ≡ true → occurrences x (k.thread_lists (k.threads x).task) ≡ 1
  pub own : (task x : ℕ) → (k.threads x).task ≢ task → occurrences x (k.thread_lists task) ≡ 0
  pub exact : (task : ℕ) → (k.tasks task).retain_count ≡ others task + thread_references k task

module _ {others : ℕ → ℕ} {k : Kernel} (v : Counted others k) (x : ℕ) where
  references-put :
      (t : Thread) (task : ℕ)
      → (k.threads x).in_task ≡ true
      → sum_by weight (put_thread k x t).threads (k.thread_lists task)
          + (if (k.threads x).task == task then weight (k.threads x) else 0)
        ≡ thread_references k task + (if (k.threads x).task == task then weight t else 0)
  references-put t task h = ground (
    arith,
    v.listed x,
    v.own task x,
    sum-update_absent {0} weight k.threads x t (k.thread_lists task),
    sum-update_once {0} weight k.threads x t (k.thread_lists task),
  )

  abbrev home : ℕ
  home = (k.threads x).task

  -- A thread that accounts for references has a task with references.
  home_pos :
      (k.threads x).in_task ≡ true → 0 < weight (k.threads x) → 0 < (k.tasks home).retain_count
  home_pos h pos =
      ground
        (arith, v.listed x, v.exact home, le-sum_by {0} weight k.threads x (k.thread_lists home))

  -- Thread `x` becomes `t` and its task `tk`, with the same difference.
  moved :
      (t : Thread) (tk : Task.Task) (k' : Kernel)
      → k'.threads ≡ update k.threads x t
      → k'.tasks ≡ update k.tasks home tk
      → k'.thread_lists ≡ k.thread_lists
      → (k.threads x).in_task ≡ true
      → t.task ≡ home
      → t.in_task ≡ true
      → tk.retain_count + weight (k.threads x) ≡ (k.tasks home).retain_count + weight t
      → Counted others k'
  moved t tk k' eth eta eli h same joined d = record {
    listed = rw (eth, eli) (λ y e. ground (arith, v.listed y, v.listed x));
    own = rw (eth, eli) (λ task y e. ground (arith, v.own task y));
    exact = rw (eth, eli, eta) (λ task. ground (arith, v.exact task, references-put t task h));
  }

-- What `Thread::Retain` does to a thread of a task.
data Retained (k : Kernel) (x : ℕ) : Option (Kernel × Bool) → Type 0 where
  dead : Retained k x (some (k, false))
  refused :
      (k.threads x).killed ≡ false
      → (Task.retain (k.tasks (k.threads x).task)).1 ≡ false
      → Retained k x (some ((Stored.retain k (k.threads x).task).0, false))
  counted :
      (k.threads x).killed ≡ false
      → (Task.retain (k.tasks (k.threads x).task)).1 ≡ true
      → Retained k x (
          some (
            put_thread
                (Stored.retain k (k.threads x).task).0
                x
                (record (k.threads x) { retain_count = inc32 (k.threads x).retain_count }),
            true,
          ))

retain-Retained : (k : Kernel) (x : ℕ) → (k.threads x).in_task ≡ true → Retained k x (retain k x)
unfolding retain
retain-Retained k x h = elim (Bool-cases (k.threads x).killed) [
  | inl e ↦ subst (Retained k x) (ground arith) dead
  | inr e ↦ elim (Bool-cases (Task.retain (k.tasks (k.threads x).task)).1) [
    | inl f ↦ subst (Retained k x) (ground arith) (counted e f)
    | inr f ↦ subst (Retained k x) (ground arith) (refused e f)
  ]
]

module _ {others : ℕ → ℕ} {k : Kernel} (v : Counted others k) (x : ℕ) where
  Retained-Counted :
      {o : Option (Kernel × Bool)}
      → Retained k x o
      → (k.threads x).in_task ≡ true
      → (k.threads x).retain_count + 1 < 2 ^ 31
      → (k.tasks (k.threads x).task).retain_count + 1 < 2 ^ 31
      → Returns o (λ r. Counted others r.0)
  unfolding Task.retain Stored.retain
  Retained-Counted dead h small small' = v
  Retained-Counted (refused e f) h small small' = record {
    listed = v.listed;
    own = v.own;
    exact = λ task. ground (arith, v.exact task);
  }
  Retained-Counted (counted e f) h small small' =
      moved v x _ _ _ refl refl refl h refl h (ground arith)

  -- `Thread::Retain` returns, and keeps the counts exact.
  pub retain-Counted :
      (k.threads x).in_task ≡ true
      → (k.threads x).retain_count + 1 < 2 ^ 31
      → (k.tasks (k.threads x).task).retain_count + 1 < 2 ^ 31
      → Returns (retain k x) (λ r. Counted others r.0)
  retain-Counted h = Retained-Counted (retain-Retained k x h) h

  -- `Thread::Kill` of a thread that is retained keeps the counts exact.
  pub kill-Counted :
      (k.threads x).in_task ≡ true → 0 < (k.threads x).retain_count → Counted others (kill k x)
  unfolding kill
  kill-Counted h pos = record {
    listed = λ y e. ground (arith, v.listed y, v.listed x);
    own = λ task y e. ground (arith, v.own task y);
    exact = λ task.
        ground
          (arith, v.exact task, references-put v x (record (k.threads x) { killed = true }) task h);
  }

module _ (L : LinkedList Garbage) where
  abbrev released : Kernel → ℕ → Thread
  released k x = record (k.threads x) { retain_count = dec32 (k.threads x).retain_count }

  -- What `Thread::Release` does to a thread of a task.
  data Released (k : Kernel) (x : ℕ) : Option Kernel → Type 0 where
    thrown :
        ((dec32 (k.threads x).retain_count == 0) && (k.threads x).killed) ≡ true
        → Released k x (some (throw_away L (put_thread k x (released k x)) (thread_garbage x)))
    returned :
        ((dec32 (k.threads x).retain_count == 0) && (k.threads x).killed) ≡ false
        → Released k x (some (Stored.release L (put_thread k x (released k x)) (k.threads x).task))

  release-Released :
      (k : Kernel) (x : ℕ) → (k.threads x).in_task ≡ true → Released k x (release L k x)
  unfolding release
  release-Released k x h =
      elim (Bool-cases ((dec32 (k.threads x).retain_count == 0) && (k.threads x).killed)) [
        | inl e ↦ subst (Released k x) (ground arith) (thrown e)
        | inr e ↦ subst (Released k x) (ground arith) (returned e)
      ]

  -- `Task::Release` has two outcomes with the same tasks and threads.
  Stored-release_cases :
      (k : Kernel) (i : ℕ)
      → let r = Stored.release L k i in
        (r.tasks ≡ update k.tasks i (Task.release (k.tasks i)).0)
        × (r.threads ≡ k.threads)
        × (r.thread_lists ≡ k.thread_lists)
  unfolding Stored.release throw_away
  Stored-release_cases k i = ground arith

  module _ {others : ℕ → ℕ} {k : Kernel} (v : Counted others k) (x : ℕ) where
    Released-Counted :
        {o : Option Kernel}
        → Released k x o
        → (k.threads x).in_task ≡ true
        → 0 < (k.threads x).retain_count
        → (k.threads x).retain_count < 2 ^ 31
        → (k.tasks (k.threads x).task).retain_count < 2 ^ 31
        → Returns o (Counted others)
    unfolding throw_away Task.release
    Released-Counted (thrown e) h pos small small' = record {
      listed = λ y e. ground (arith, v.listed y, v.listed x);
      own = λ task y e. ground (arith, v.own task y);
      exact = λ task. ground (arith, v.exact task, references-put v x (released k x) task h);
    }
    Released-Counted (returned e) h pos small small' =
        let (tasks, threads, lists) =
          Stored-release_cases (put_thread k x (released k x)) (k.threads x).task in
        moved v x (released k x) _ _ threads tasks lists h refl h (ground (arith, home_pos v x h))

    -- `Thread::Release` of a reference returns, and keeps the counts exact: a thread that is thrown
    -- away keeps its last reference to the task.
    pub release-Counted :
        (k.threads x).in_task ≡ true
        → 0 < (k.threads x).retain_count
        → (k.threads x).retain_count < 2 ^ 31
        → (k.tasks (k.threads x).task).retain_count < 2 ^ 31
        → Returns (release L k x) (Counted others)
    release-Counted h = Released-Counted (release-Released k x h) h

-- A task that `Release` or `Unhold` throws away has no thread that anything retains, and none that
-- waits to be deallocated.
done_idle :
    {others : ℕ → ℕ} {k : Kernel}
    → Counted others k
    → (x : ℕ) → (k.threads x).in_task ≡ true
    → Task.is_done (k.tasks (k.threads x).task) ≡ true
    → ((k.threads x).retain_count ≡ 0) × ((k.threads x).killed ≡ false)
done_idle v x h done = ground (arith, home_pos v x h)
