-- ===== src/Tasks/Ending.antt =====
-- What is left of a user task whose `Dealloc` has run, by kernel/src/tasks/user-task.cpp.
use alux.Prelude.{
  ◌≤◌, ℕ, ◌+◌, ◌≡◌, ◌≢◌, ◌<◌, refl, true, some, LinkedList, IdMap, Returns, Returns->>=,
  occurrences, arith, ◌>>=◌,
}
use alux.Kernel.{Kernel, Garbage, empty_task, empty_thread}
use alux.Tasks.Emptied.{AreIdle, Emptied, dealloc_threads-Emptied}
use alux.Tasks.Kinds.{user_task, Deletion, destruct, dealloc}
use alux.Tasks.Life as task_life
use alux.X64.Faults.{IsPlaced, InProgram}
use alux.X64.Frames.{Has, written_freed}
use alux.X64.Sectors.{ExecutableMap, free_phys, handle_page_fault, delete_map}

-- The task is gone with its threads, its memory map and the frame.
pub record IsEnded (M : IdMap) (k : Kernel) (i map page : ℕ) (r : Kernel × Deletion) : Type 0 where
  pub gone : r.0.tasks i ≡ empty_task
  pub unlisted : r.0.task_list ≡ M.remove k.task_list i
  pub threads_gone : (x : ℕ) → 0 < occurrences x (k.thread_lists i) → r.0.threads x ≡ empty_thread
  pub others_kept : (x : ℕ) → occurrences x (k.thread_lists i) ≡ 0 → r.0.threads x ≡ k.threads x
  pub run_queue :
      (x : ℕ)
      → occurrences x r.0.run_queue + occurrences x (k.thread_lists i) ≡ occurrences x k.run_queue
  pub stale :
      (x : ℕ)
      → occurrences x k.stale_links + occurrences x (k.thread_lists i)
        ≤ occurrences x r.0.stale_links
  pub map_deleted : r.1.memory_map ≡ some map
  pub freed : Has (free_phys page) r.1.executable_map

module _ (L : LinkedList Garbage) (P : LinkedList ℕ) (M : IdMap) where
  -- What `Task::Dealloc` leaves.
  abbrev Left : Kernel → ℕ → Kernel → Type 0
  Left k i k' =
      (k1 : Kernel) × Emptied k (k.thread_lists i) k1
      × (k' ≡ record k1 { task_list = M.remove k1.task_list i })

  task_dealloc-Left :
      (k : Kernel) (i : ℕ)
      → AreIdle k (k.thread_lists i)
      → (k.tasks i).in_scheduler ≡ true
      → Returns (task_life.dealloc L P M k i) (Left k i)
  unfolding task_life.dealloc
  task_dealloc-Left k i v s =
      Returns->>= (Emptied k (k.thread_lists i)) (Left k i)
        (task_life.dealloc_threads L P M k (k.thread_lists i)) _
        (dealloc_threads-Emptied L P M k (k.thread_lists i) v)
        (λ k1 t. (k1, t, ground (arith, t.tasks)))

  -- A user task that is in the scheduler's list, whose threads are idle and alive, each once in the
  -- list of the task and in that of the scheduler, where no port has a terminal; its last page fault
  -- was a write inside its placed program to which a frame other than 0 was given. Then the fault and
  -- the `Dealloc` of the task return, the task is taken out of the list of tasks and its object is
  -- gone; its threads are gone and out of the list of the scheduler, and no other thread is; the loop
  -- that deletes them reads the link of each of them after its deletion, and where it gets what the link
  -- held, as here, it finds all; its memory map is deleted, and the frame is given back.
  pub dealloc-IsEnded :
      (k : Kernel) (i map : ℕ) (m : ExecutableMap) (addr page : ℕ)
      → AreIdle k (k.thread_lists i)
      → (k.tasks i).in_scheduler ≡ true
      → IsPlaced m
      → InProgram m addr
      → page ≢ 0
      → Returns
          (handle_page_fault m addr true (some page) >>= λ r.
            dealloc L P M k i (user_task (record { memory_map = map; executable_map = r.0 })))
          (IsEnded M k i map page)
  unfolding dealloc destruct
  dealloc-IsEnded k i map m addr page idle s v inside ne =
      Returns->>= (λ r. Has (free_phys page) (delete_map r.0)) (IsEnded M k i map page)
        (handle_page_fault m addr true (some page)) _ (written_freed m addr v page inside ne)
        λ r h.
          Returns->>= (Left k i) (IsEnded M k i map page) (task_life.dealloc L P M k i) _
            (task_dealloc-Left k i idle s)
            (λ k' t.
              let (k1, w, e) = t in
              record {
                gone = ground arith;
                unlisted = ground (arith, w.task_list);
                threads_gone = λ x q. ground (arith, w.gone x);
                others_kept = λ x q. ground (arith, w.kept x);
                run_queue = λ x. ground (arith, w.run_queue x);
                stale = λ x. ground (arith, w.stale x);
                map_deleted = refl;
                freed = h;
              })
