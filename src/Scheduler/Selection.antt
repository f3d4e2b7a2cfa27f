-- ===== src/Scheduler/Selection.antt =====
-- Which thread `Switch` picks: the first one on the list that may run.
use alux.Prelude.{
  update_restore, update_twice, first, inc32, ℕ, ◌^◌, ◌<◌, ◌≡◌, refl, inl, inr, Bool, true, false,
  not, ◌&&◌, ◌||◌, ltb, ◌==◌, Bool-cases, Option, none, some, List, [], ◌∷◌, LinkedList, All, arith,
}
use alux.Kernel.{Kernel, Garbage, put_task, put_thread}
use alux.Tasks.Task
use alux.Tasks.Stored
use alux.Threads.Counts.{retain, release}
use alux.Threads.Access.{get_task}
use alux.Scheduler.Switch.{find_next, claimed}

-- `Thread::Retain` would succeed.
abbrev pub can_retain : Kernel → ℕ → Bool
can_retain k x =
    let t = k.tasks (k.threads x).task in
    not (k.threads x).killed && not (Task.is_killed t && (t.hold_count == 0))

-- The thread may run now.
abbrev pub is_eligible : Kernel → ℕ → ℕ → Bool
is_eligible k now x = can_retain k x && not (ltb now (k.objs x).deadline || (k.objs x).running)

-- A thread that went through `AddToTask`, with counters of 32 bits.
pub record IsListed (k : Kernel) (x : ℕ) : Type 0 where
  pub joined : (k.threads x).in_task ≡ true
  pub word : (k.threads x).retain_count < 2 ^ 32
  pub task_word : (k.tasks (k.threads x).task).retain_count < 2 ^ 32

-- The state after a `Retain` that succeeds.
abbrev pub retained : Kernel → ℕ → Kernel
retained k x =
    let t = k.threads x in
    let task = k.tasks t.task in
    put_thread (put_task k t.task (record task { retain_count = inc32 task.retain_count })) x
      (record t { retain_count = inc32 t.retain_count })

pub retain_refused :
    (k : Kernel) (x : ℕ) → IsListed k x → can_retain k x ≡ false → retain k x ≡ some (k, false)
unfolding retain Task.retain
retain_refused k x v e = ground (arith, update_restore k.tasks (k.threads x).task)

pub retain_allowed :
    (k : Kernel) (x : ℕ)
    → IsListed k x
    → can_retain k x ≡ true
    → retain k x ≡ some (retained k x, true)
unfolding retain Task.retain
retain_allowed k x v e = ground arith

-- What is retained and then released is as before, and nothing is thrown away.
pub release-retained :
    (L : LinkedList Garbage) (k : Kernel) (x : ℕ)
    → IsListed k x
    → can_retain k x ≡ true
    → release L (retained k x) x ≡ some k
unfolding release Stored.release Task.release get_task
release-retained L k x v e =
    let t = k.threads x in
    let task = t.task in
    let rc = (k.tasks task).retain_count in
    ground (
      arith,
      update_twice k.threads x (record t { retain_count = inc32 t.retain_count }) t,
      update_restore k.threads x,
      update_twice k.tasks task (record (k.tasks task) { retain_count = inc32 rc }) (k.tasks task),
      update_restore k.tasks task,
    )

-- The outcome of the loop: the thread is retained and marked as running.
abbrev pub found : Kernel → Option ℕ → Kernel × Option ℕ
found k none = (k, none)
found k (some x) = (claimed (retained k x) x, some x)

-- The loop of `Switch` over any part of the list finds the first thread that may run: one that
-- `Thread::Retain` accepts, whose deadline has passed and which no CPU runs. It retains that thread
-- and marks it as running, and leaves every other thread, task and the garbage as they were, also
-- those that it retained on the way; if no thread may run, it changes nothing.
pub find_next-first :
    (L : LinkedList Garbage) (k : Kernel) (now : ℕ) (xs : List ℕ)
    → All (IsListed k) xs
    → find_next L k now xs ≡ some (found k (first (is_eligible k now) xs))
unfolding find_next first
find_next-first L k now [] v = refl
find_next-first L k now (x ∷ xs) v = elim (Bool-cases (can_retain k x)) [
  | inl e ↦ elim (Bool-cases (ltb now (k.objs x).deadline || (k.objs x).running)) [
    | inl b ↦
        rw (retain_allowed k x v.0 e)
          (rw (e, b) (rw (release-retained L k x v.0 e) (find_next-first L k now xs v.1)))
    | inr b ↦ rw (retain_allowed k x v.0 e) (rw (e, b) refl)
  ]
  | inr e ↦ rw (retain_refused k x v.0 e, e) (find_next-first L k now xs v.1)
]
