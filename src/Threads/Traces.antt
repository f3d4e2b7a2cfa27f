-- ===== src/Threads/Traces.antt =====
-- The references of threads to their tasks over any sequence of `Retain`, `Release`, `Kill` and
-- `Dealloc`.
use alux.Prelude.{
  ℕ, ◌+◌, ◌^◌, ◌<◌, ◌≡◌, true, Option, some, LinkedList, IdMap, Returns, Returns-mono, Returns->>=,
  ◌>>=◌,
}
use alux.Kernel.{Kernel, Garbage}
use alux.Threads.Counts.{retain, release, kill}
use alux.Threads.Deallocation.{IsDead, Gone, dealloc-Gone, Gone-Counted}
use alux.Threads.Life.{dealloc}
use alux.Threads.References.{Counted, retain-Counted, release-Counted, kill-Counted}

-- A call on the thread at an address.
pub data Action : Type 0 where
  retains releases kills deallocs : ℕ → Action

module _ (L : LinkedList Garbage) (P : LinkedList ℕ) (M : IdMap) where
  abbrev pub perform : Kernel → Action → Option Kernel
  perform k (retains x) = retain k x >>= λ r. some r.0
  perform k (releases x) = release L k x
  perform k (kills x) = some (kill k x)
  perform k (deallocs x) = dealloc L P M k x

  -- Callers keep the contract of thread.hpp: the thread went through `AddToTask`, a release gives back
  -- a reference, only a running thread is killed, and the collector deallocates a dead thread. The
  -- counters of the thread and its task do not overflow.
  abbrev pub Allowed : Kernel → Action → Type 0
  Allowed k (retains x) =
      ((k.threads x).in_task ≡ true)
      × ((k.threads x).retain_count + 1 < 2 ^ 31)
      × ((k.tasks (k.threads x).task).retain_count + 1 < 2 ^ 31)
  Allowed k (releases x) =
      ((k.threads x).in_task ≡ true)
      × (0 < (k.threads x).retain_count)
      × ((k.threads x).retain_count < 2 ^ 31)
      × ((k.tasks (k.threads x).task).retain_count < 2 ^ 31)
  Allowed k (kills x) = ((k.threads x).in_task ≡ true) × (0 < (k.threads x).retain_count)
  Allowed k (deallocs x) = IsDead L P M k x

  -- `Thread::Retain`, `Release`, `Kill` and `Dealloc`, called by the contract, return, and keep the
  -- retain count of every task equal to the references of its threads, one for each of their own and
  -- one for a dead thread until its `Dealloc`, and of its other users.
  pub perform-Counted :
      {others : ℕ → ℕ} {k : Kernel} (a : Action)
      → Counted others k
      → Allowed k a
      → Returns (perform k a) (Counted others)
  perform-Counted {others} {k} (retains x) v h =
      Returns->>= (λ r. Counted others r.0) (Counted others) (retain k x) _
        (retain-Counted v x h.0 h.1 h.2) (λ r w. w)
  perform-Counted (releases x) v h = release-Counted L v x h.0 h.1 h.2 h.3
  perform-Counted (kills x) v h = kill-Counted v x h.0 h.1
  perform-Counted {others} {k} (deallocs x) v h =
      Returns-mono (Gone L P M k x) (Counted others) (dealloc L P M k x) (dealloc-Gone L P M k x h)
        (λ k' g. Gone-Counted L P M x v h g)
