-- ===== src/Scheduler/Contract.antt =====
-- kernel/src/scheduler/scheduler.hpp: what a scheduler promises, whatever its algorithm. It forgets
-- the order in which a scheduler keeps its threads, and says who may run and not who does.
use alux.Prelude.{
  ℕ, ◌<◌, ◌≤◌, ◌≡◌, ◌≢◌, ◌⊎◌, Bool, true, update, Option, none, some, Bag, units, put, take_out,
}
use alux.Scheduler.Main.{infinite}

-- The threads of a scheduler, the time until which each is unscheduled, what each CPU runs, and the
-- thread of the garbage collector.
pub record Scheduler : Type 0 where
  pub threads : Bag
  pub deadline : ℕ → ℕ
  pub current : ℕ → Option ℕ
  pub collector : ℕ

-- `Add`, with the deadline that a new thread has
unfoldable pub add : Scheduler → (th deadline : ℕ) → Scheduler
add s th deadline = record s {
  threads = put th s.threads;
  deadline = update s.deadline th deadline;
}

-- `Remove`; the deadline of a thread that is gone reads as 0.
unfoldable pub remove : Scheduler → ℕ → Scheduler
remove s th = record s { threads = take_out th s.threads; deadline = update s.deadline th 0 }

-- `SetTimeout`, before the CPU goes on with another thread
unfoldable pub set_timeout : Scheduler → (th deadline : ℕ) → Scheduler
set_timeout s th deadline = record s { deadline = update s.deadline th deadline }

-- `SetInfiniteTimeout`, before the CPU goes on
unfoldable pub set_infinite_timeout : Scheduler → ℕ → Scheduler
unfolding set_timeout
set_infinite_timeout s th = set_timeout s th infinite

-- `ClearTimeout`
unfoldable pub clear_timeout : Scheduler → ℕ → Scheduler
clear_timeout s th = record s { deadline = update s.deadline th 0 }

-- `ClearGarbageTimeout`
unfoldable pub clear_garbage_timeout : Scheduler → Scheduler
unfolding clear_timeout
clear_garbage_timeout s = clear_timeout s s.collector

-- Whether a CPU may go on with a thread, or with none, at a time: the thread is one of the
-- scheduler's, lives, is not unscheduled, and runs on no other CPU; with none, there is no such
-- thread.
abbrev pub MayRun : (ℕ → Bool) → Scheduler → (cpu now x : ℕ) → Type 0
MayRun alive s cpu now x =
    (0 < units x s.threads)
    × (alive x ≡ true)
    × (s.deadline x ≤ now)
    × ((c : ℕ) → c ≢ cpu → s.current c ≢ some x)

abbrev pub MayGoOn : (ℕ → Bool) → Scheduler → (cpu now : ℕ) → Option ℕ → Type 0
MayGoOn alive s cpu now none = (x : ℕ) → ¬ MayRun alive s cpu now x
MayGoOn alive s cpu now (some x) = MayRun alive s cpu now x

-- `Yield` on a CPU: it goes on with a thread that may run, which may be the one that yielded, or
-- with none if none may. Giving up a thread may end it, which wakes the collector.
pub record Yields (alive : ℕ → Bool) (cpu now : ℕ) (s s' : Scheduler) : Type 0 where
  pub next : Option ℕ
  pub threads : s'.threads ≡ s.threads
  pub collector : s'.collector ≡ s.collector
  pub current : (c : ℕ) → s'.current c ≡ update s.current cpu next c
  pub deadline : (x : ℕ) → (s'.deadline x ≡ s.deadline x) ⊎ (x ≡ s.collector) × (s'.deadline x ≡ 0)
  pub may_go_on : MayGoOn alive s' cpu now next
