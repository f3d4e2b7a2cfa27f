-- ===== src/Threads/Counts.antt =====
-- kernel/src/threads/thread.cpp: the retain count of a thread, which carries one reference to its
-- task for each of its own.
use alux.Prelude.{
  ℕ, Bool, true, false, ◌&&◌, ◌==◌, if◌then◌else◌, Option, some, [], inc32, dec32, LinkedList,
  ◌>>=◌,
}
use alux.Kernel.{Kernel, Thread, Garbage, thread_garbage, put_thread}
use alux.Scheduler.Collector.{throw_away}
use alux.Tasks.Stored
use alux.Threads.Access.{get_task}

-- `Thread::Thread`, whose `Identifier` is not set yet.
unfoldable pub new_thread : ℕ → ℕ → Thread
new_thread task identifier = record {
  task = task;
  identifier = identifier;
  retain_count = 1;
  killed = false;
  in_task = false;
  in_scheduler = false;
  holding_task = false;
  sleep_state = record { sleeping = false; cancelled = false };
  poll_state = record { polling = false; pending_ports = [] };
  port_list = [];
}

-- `Thread::Retain`
unfoldable pub retain : Kernel → ℕ → Option (Kernel × Bool)
unfolding get_task Stored.retain
retain k th = if (k.threads th).killed then some (k, false) else do
  task ← get_task k th
  let (k', done) = Stored.retain k task
  if done
      then some (
        put_thread k' th
            (record (k.threads th) { retain_count = inc32 (k.threads th).retain_count }),
        true,
      )
      else some (k', false)

-- `Thread::Kill`
unfoldable pub kill : Kernel → ℕ → Kernel
kill k th = put_thread k th (record (k.threads th) { killed = true })

module _ (L : LinkedList Garbage) where
  -- `Thread::Release`
  unfoldable pub release : Kernel → ℕ → Option Kernel
  unfolding get_task
  release k th =
      let t = record (k.threads th) { retain_count = dec32 (k.threads th).retain_count } in
      let k' = put_thread k th t in
      if (t.retain_count == 0) && t.killed
      then some (throw_away L k' (thread_garbage th))
      else do task ← get_task k th; some (Stored.release L k' task)
