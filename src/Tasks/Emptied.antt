-- ===== src/Tasks/Emptied.antt =====
-- `Task::Dealloc` of kernel/src/tasks/task.cpp and the threads of the task.
use alux.Prelude.{
  ℕ, ◌+◌, ◌≡◌, ◌≢◌, ◌<◌, ◌≤◌, refl, subst, true, false, none, some, List, [], ◌∷◌, LinkedList,
  IdMap, Returns, Returns-mono, Returns->>=, occurrences, occurrences-unlink, arith, update,
}
use alux.Kernel.{put_stale, Kernel, Garbage, empty_thread, put_thread}
use alux.Ipc.Ports as port_ends
use alux.Scheduler.Queue
use alux.Tasks.Life as task_life
use alux.Threads.Access.{get_task, get_scheduler, get_task_scheduler}
use alux.Threads.Life.{dealloc_ports, leave_scheduler, leave_task, dealloc}
use alux.Threads.Ports

-- No port has a terminal, as is so for every port (see `Ipc.Attachment`).
abbrev pub AllDetached : Kernel → Type 0
AllDetached k = (p : ℕ) → (k.ports p).terminal ≡ none

-- A step that changes only ports.
record OnlyPorts (k k' : Kernel) : Type 0 where
  threads : k'.threads ≡ k.threads
  tasks : k'.tasks ≡ k.tasks
  run_queue : k'.run_queue ≡ k.run_queue
  lists : k'.thread_lists ≡ k.thread_lists
  task_list : k'.task_list ≡ k.task_list
  detached : AllDetached k'
  stale : (x : ℕ) → occurrences x k.stale_links ≤ occurrences x k'.stale_links

-- The thread is idle: in its task and the scheduler, alive, and its task in the scheduler.
pub record IsIdle (k : Kernel) (th : ℕ) : Type 0 where
  pub joined : (k.threads th).in_task ≡ true
  pub scheduled : (k.threads th).in_scheduler ≡ true
  pub alive : (k.threads th).killed ≡ false
  pub home : (k.tasks (k.threads th).task).in_scheduler ≡ true

-- What the `Dealloc` of an idle thread leaves.
record Removed (P : LinkedList ℕ) (k : Kernel) (th : ℕ) (k' : Kernel) : Type 0 where
  threads : k'.threads ≡ update k.threads th empty_thread
  tasks : k'.tasks ≡ k.tasks
  run_queue : k'.run_queue ≡ P.remove k.run_queue th
  lists : k'.thread_lists ≡ k.thread_lists
  task_list : k'.task_list ≡ k.task_list
  detached : AllDetached k'
  stale : (x : ℕ) → occurrences x k.stale_links ≤ occurrences x k'.stale_links

module _ (L : LinkedList Garbage) (P : LinkedList ℕ) (M : IdMap) where
  sever-detached :
      (k : Kernel) (p : ℕ) → (k.ports p).terminal ≡ none → port_ends.sever L k p ≡ some k
  unfolding port_ends.sever port_ends.get_terminal
  sever-detached k p e = ground arith

  dealloc_ports-OnlyPorts :
      (k : Kernel) (ps : List ℕ) → AllDetached k → Returns (dealloc_ports L P M k ps) (OnlyPorts k)
  unfolding dealloc_ports Ports.dealloc Ports.new_port occurrences
  dealloc_ports-OnlyPorts k [] v = record {
    threads = refl;
    tasks = refl;
    run_queue = refl;
    lists = refl;
    task_list = refl;
    detached = v;
    stale = λ x. omega arith;
  }
  dealloc_ports-OnlyPorts k (p ∷ ps) v =
      let k' = put_stale (Ports.dealloc M P k p false) p in
      rw (sever-detached k p (v p)) (
        Returns-mono (OnlyPorts k') (OnlyPorts k) (dealloc_ports L P M k' ps)
          (dealloc_ports-OnlyPorts k' ps (λ q. ground (arith, v q)))
          (λ k2 s. record {
            threads = s.threads;
            tasks = s.tasks;
            run_queue = s.run_queue;
            lists = s.lists;
            task_list = s.task_list;
            detached = s.detached;
            stale = λ x. ground (arith, s.stale x);
          }))

  dealloc-Removed :
      (k : Kernel) (th : ℕ)
      → AllDetached k
      → IsIdle k th
      → Returns (dealloc L P M k th) (Removed P k th)
  unfolding dealloc leave_scheduler leave_task get_task_scheduler get_task get_scheduler
      Queue.remove
  dealloc-Removed k th v d =
      Returns->>= (OnlyPorts k) (Removed P k th) (dealloc_ports L P M k (k.threads th).port_list) _
        (dealloc_ports-OnlyPorts k (k.threads th).port_list v)
        (λ k1 s.
          let k2 = Queue.remove P k1 th in
          subst (λ o. Returns o (Removed P k th)) {x = some (put_thread k2 th empty_thread)}
            (ground (arith, s.threads, s.tasks, d.joined, d.scheduled, d.alive, d.home))
            (record {
              threads = ground (arith, s.threads);
              tasks = s.tasks;
              run_queue = ground (arith, s.run_queue);
              lists = s.lists;
              task_list = s.task_list;
              detached = s.detached;
              stale = λ x. s.stale x;
            }))

-- The threads are gone from the store and the scheduler, nothing else is, and the link of each has been
-- read after its deletion.
pub record Emptied (k : Kernel) (ths : List ℕ) (k' : Kernel) : Type 0 where
  pub gone : (x : ℕ) → 0 < occurrences x ths → k'.threads x ≡ empty_thread
  pub kept : (x : ℕ) → occurrences x ths ≡ 0 → k'.threads x ≡ k.threads x
  pub run_queue :
      (x : ℕ) → occurrences x k'.run_queue + occurrences x ths ≡ occurrences x k.run_queue
  pub tasks : k'.tasks ≡ k.tasks
  pub task_list : k'.task_list ≡ k.task_list
  pub stale :
      (x : ℕ) → occurrences x k.stale_links + occurrences x ths ≤ occurrences x k'.stale_links

-- Idle threads, each once, that stand in the list of the scheduler.
pub record AreIdle (k : Kernel) (ths : List ℕ) : Type 0 where
  pub detached : AllDetached k
  pub once : (x : ℕ) → occurrences x ths ≤ 1
  pub queued : (x : ℕ) → occurrences x ths ≤ occurrences x k.run_queue
  pub idle : (x : ℕ) → 0 < occurrences x ths → IsIdle k x

module _ (L : LinkedList Garbage) (P : LinkedList ℕ) (M : IdMap) where
  Removed-AreIdle :
      (k : Kernel) (th : ℕ) (ths : List ℕ) (k' : Kernel)
      → AreIdle k (th ∷ ths)
      → Removed P k th k'
      → AreIdle k' ths
  unfolding occurrences
  Removed-AreIdle k th ths k' v s =
      let here : 0 < occurrences th k.run_queue = ground (arith, v.queued th) in
      record {
        detached = s.detached;
        once = λ x. ground (arith, v.once x);
        queued = λ x.
            ground (arith, v.queued x, s.run_queue, occurrences-unlink P th x k.run_queue here);
        idle = λ x h.
            let other : x ≢ th = ground (arith, v.once x) in
            let d = v.idle x (ground arith) in
            record {
              joined = ground (arith, s.threads, d.joined);
              scheduled = ground (arith, s.threads, d.scheduled);
              alive = ground (arith, s.threads, d.alive);
              home = ground (arith, s.threads, s.tasks, d.home);
            };
      }

  stale-AreIdle :
      (k : Kernel) (th : ℕ) (ths : List ℕ) → AreIdle k ths → AreIdle (put_stale k th) ths
  stale-AreIdle k th ths v = record {
    detached = v.detached;
    once = v.once;
    queued = v.queued;
    idle = λ x h.
        let d = v.idle x h in
        record { joined = d.joined; scheduled = d.scheduled; alive = d.alive; home = d.home };
  }

  pub dealloc_threads-Emptied :
      (k : Kernel) (ths : List ℕ)
      → AreIdle k ths
      → Returns (task_life.dealloc_threads L P M k ths) (Emptied k ths)
  unfolding task_life.dealloc_threads occurrences
  dealloc_threads-Emptied k [] v = record {
    gone = λ x h. absurd (omega arith);
    kept = λ x h. refl;
    run_queue = λ x. omega arith;
    tasks = refl;
    task_list = refl;
    stale = λ x. omega arith;
  }
  dealloc_threads-Emptied k (th ∷ ths) v =
      let here : 0 < occurrences th k.run_queue = ground (arith, v.queued th) in
      Returns->>= (Removed P k th) (Emptied k (th ∷ ths)) (dealloc L P M k th) _
        (dealloc-Removed L P M k th v.detached (v.idle th (ground arith)))
        (λ k' s.
          let k'' = put_stale k' th in
          Returns-mono (Emptied k'' ths) (Emptied k (th ∷ ths))
            (task_life.dealloc_threads L P M k'' ths)
            (dealloc_threads-Emptied k'' ths
              (stale-AreIdle k' th ths (Removed-AreIdle k th ths k' v s)))
            (λ k2 t. record {
              gone = λ x h. ground (arith, t.gone x, t.kept x, s.threads, v.once x);
              kept = λ x h. ground (arith, t.kept x, s.threads);
              run_queue = λ x.
                  ground
                    (arith, t.run_queue x, s.run_queue, occurrences-unlink P th x k.run_queue here);
              tasks = ground (arith, s.tasks, t.tasks);
              task_list = ground (arith, s.task_list, t.task_list);
              stale = λ x. ground (arith, s.stale x, t.stale x);
            }))
