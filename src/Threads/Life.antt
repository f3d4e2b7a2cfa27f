-- ===== src/Threads/Life.antt =====
-- kernel/src/threads/thread.cpp: entering the task and the scheduler, and `Dealloc`.
use alux.Prelude.{
  ℕ, update, Bool, true, false, if◌then◌else◌, Option, none, some, List, [], ◌∷◌, LinkedList, IdMap,
  ensure, ◌>>=◌, ◌>>◌,
}
use alux.Kernel.{put_stale, Kernel, Garbage, put_thread, empty_thread}
use alux.Scheduler.Queue
use alux.Tasks.Stored
use alux.Threads.Access.{get_task, get_scheduler, get_task_scheduler}
use alux.Threads.Counts.{new_thread}
use alux.Threads.Ports
use alux.Ipc.Ports as port_ends

-- `Thread::New`, with the address that `new` gives and the value of the unset `Identifier`; the
-- constructor asks the task for its scheduler.
unfoldable pub create_thread : Kernel → (task th ident : ℕ) → Option Kernel
unfolding get_scheduler new_thread
create_thread k task th ident =
    get_scheduler k task >> some (put_thread k th (new_thread task ident))

module _ (M : IdMap) where
  -- `Thread::AddToTask`, with the assertion of `Task::GetThreadList`.
  unfoldable pub add_to_task : Kernel → ℕ → Option (Kernel × Bool)
  unfolding get_scheduler
  add_to_task k th = do
    let task = (k.threads th).task
    get_scheduler k task
    some (elim (M.add (k.thread_lists task) th) [
      | none ↦ (k, false)
      | some (ident, ths) ↦ (
        put_thread (record k { thread_lists = update k.thread_lists task ths }) th
            (record (k.threads th) { identifier = ident; in_task = true }),
        true,
      )
    ])

module _ (P : LinkedList ℕ) where
  -- `Thread::AddToScheduler`
  unfoldable pub add_to_scheduler : Kernel → ℕ → ℕ → Option Kernel
  unfolding get_scheduler Queue.add
  add_to_scheduler k th deadline = do
    ensure (k.threads th).in_task
    get_scheduler k (k.threads th).task
    let k' = Queue.add P k th deadline
    some (put_thread k' th (record (k.threads th) { in_scheduler = true }))

module _ (L : LinkedList Garbage) (P : LinkedList ℕ) (M : IdMap) where
  -- The loop over the ports: sever each and delete it. `++j` then reads the link inside the deleted
  -- port; the loop goes on with what the link held.
  unfoldable pub dealloc_ports : Kernel → List ℕ → Option Kernel
  unfolding Ports.dealloc
  dealloc_ports k [] = some k
  dealloc_ports k (p ∷ ps) = do
    k' ← port_ends.sever L k p
    dealloc_ports (put_stale (Ports.dealloc M P k' p false) p) ps

  unfoldable pub leave_scheduler : Kernel → ℕ → Option Kernel
  unfolding get_task_scheduler Queue.remove
  leave_scheduler k th =
      if (k.threads th).in_scheduler
      then (get_task_scheduler k th >> some (Queue.remove P k th))
      else some k

  -- A killed thread gives back its place in the task and its last reference to it.
  unfoldable pub leave_task : Kernel → ℕ → Option Kernel
  unfolding get_task get_scheduler
  leave_task k th =
      if (k.threads th).killed
      then (do
        task ← get_task k th
        get_scheduler k task
        let ths = M.remove (k.thread_lists task) th
        some (Stored.release L (record k { thread_lists = update k.thread_lists task ths }) task))
      else some k

  -- `Thread::Dealloc`; a deleted thread reads as one that is in no task.
  unfoldable pub dealloc : Kernel → ℕ → Option Kernel
  unfolding dealloc_ports leave_scheduler leave_task
  dealloc k th = do
    k1 ← dealloc_ports k (k.threads th).port_list
    k2 ← leave_scheduler k1 th
    k3 ← leave_task k2 th
    some (put_thread k3 th empty_thread)
