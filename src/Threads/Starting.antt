-- ===== src/Threads/Starting.antt =====
-- How kernel/src/threads/thread.cpp brings a new thread into its task and the scheduler.
use alux.Prelude.{
  ℕ, inc32, ◌^◌, ◌<◌, ◌≡◌, List, some, true, false, update, LinkedList, IdMap, arith,
}
use alux.Kernel.{Kernel, Garbage, put_obj, put_thread, put_task}
use alux.Tasks.Task
use alux.Tasks.Stored
use alux.Scheduler.Collector.{throw_away}
use alux.Scheduler.Queue
use alux.Threads.Access.{get_task, get_scheduler}
use alux.Threads.Counts.{new_thread, release}
use alux.Threads.Life.{create_thread, add_to_task, add_to_scheduler}

-- The states on the way: the thread is new, then in the task, then in the scheduler.
abbrev pub created : Kernel → (task addr ident : ℕ) → Kernel
created k task addr ident =
    put_thread
      (put_task k task (record (k.tasks task) { retain_count = inc32 (k.tasks task).retain_count }))
      addr (new_thread task ident)

abbrev pub joined : Kernel → (task addr ident new_ident : ℕ) → List ℕ → Kernel
joined k task addr ident new_ident ths =
    let k' = created k task addr ident in
    put_thread (record k' { thread_lists = update k.thread_lists task ths }) addr
      (record (new_thread task ident) { identifier = new_ident; in_task = true })

pub create_thread-eq :
    (k : Kernel) (task addr ident : ℕ)
    → (k.tasks task).in_scheduler ≡ true
    → 0 < (k.tasks task).hold_count
    → create_thread (Stored.retain k task).0 task addr ident ≡ some (created k task addr ident)
unfolding create_thread get_scheduler Stored.retain Task.retain
create_thread-eq k task addr ident s h = ground arith

module _ (M : IdMap) where
  pub add_to_task-eq :
      (k : Kernel) (task addr ident new_ident : ℕ) (ths : List ℕ)
      → (k.tasks task).in_scheduler ≡ true
      → M.add (k.thread_lists task) addr ≡ some (new_ident, ths)
      → add_to_task M (created k task addr ident) addr
        ≡ some (joined k task addr ident new_ident ths, true)
  unfolding add_to_task get_scheduler new_thread
  add_to_task-eq k task addr ident new_ident ths s e = ground arith

module _ (P : LinkedList ℕ) where
  -- The thread in the list of the scheduler, and then idle there.
  abbrev pub scheduled : Kernel → (task addr ident new_ident deadline : ℕ) → List ℕ → Kernel
  scheduled k task addr ident new_ident deadline ths =
      let k' = joined k task addr ident new_ident ths in
      put_thread (Queue.add P k' addr deadline) addr
        (record (k'.threads addr) { in_scheduler = true })

  unfoldable pub launched : Kernel → (task addr ident deadline : ℕ) → List ℕ → Kernel
  unfolding new_thread
  launched k task addr ident deadline ths =
      record (put_obj k addr (record { deadline = deadline; running = false })) {
        run_queue = P.add k.run_queue addr;
        thread_lists = update k.thread_lists task ths;
        threads = update k.threads addr (record (new_thread task ident) {
          retain_count = 0;
          in_task = true;
          in_scheduler = true;
        });
      }

  pub add_to_scheduler-eq :
      (k : Kernel) (task addr ident new_ident deadline : ℕ) (ths : List ℕ)
      → (k.tasks task).in_scheduler ≡ true
      → add_to_scheduler P (joined k task addr ident new_ident ths) addr deadline
        ≡ some (scheduled k task addr ident new_ident deadline ths)
  unfolding add_to_scheduler get_scheduler new_thread
  add_to_scheduler-eq k task addr ident new_ident deadline ths s = ground arith

module _ (L : LinkedList Garbage) (P : LinkedList ℕ) where
  pub release-scheduled :
      (k : Kernel) (task addr ident new_ident deadline : ℕ) (ths : List ℕ)
      → 0 < (k.tasks task).hold_count
      → (k.tasks task).retain_count < 2 ^ 32
      → release L (scheduled P k task addr ident new_ident deadline ths) addr
        ≡ some (launched P k task addr new_ident deadline ths)
  unfolding release get_task new_thread Stored.release Task.release throw_away launched Queue.add
  release-scheduled k task addr ident new_ident deadline ths h w = ground arith
