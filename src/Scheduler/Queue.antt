-- ===== src/Scheduler/Queue.antt =====
-- kernel/src/scheduler/rr-scheduler.cpp: the list of threads.
use alux.Prelude.{ℕ, false, LinkedList}
use alux.Kernel.{Kernel, put_obj}

module _ (P : LinkedList ℕ) where
  -- `RRScheduler::Add`, with the value that a new `ansa::Atomic<uint64_t>` has.
  unfoldable pub add : Kernel → ℕ → ℕ → Kernel
  add k th deadline =
      let k' = put_obj k th (record { deadline = deadline; running = false }) in
      record k' { run_queue = P.add k.run_queue th }

  -- `RRScheduler::Remove`; a deleted `ThreadObj` reads as an idle one.
  unfoldable pub remove : Kernel → ℕ → Kernel
  remove k th =
      let k' = put_obj k th (record { deadline = 0; running = false }) in
      record k' { run_queue = P.remove k.run_queue th }
