-- ===== src/Threads/Deallocation.antt =====
-- `Thread::Dealloc` of kernel/src/threads/thread.cpp and the references of its task.
use alux.Prelude.{
  ℕ, ◌+◌, ◌^◌, ◌<◌, ◌≡◌, refl, true, false, some, none, List, [], ◌∷◌, LinkedList, IdMap, All,
  Returns, Returns->>=, Returns-mono, occurrences, sum_by, sum-occurrences, sum-update_absent,
  update, arith, ◌>>=◌,
}
use alux.Kernel.{put_stale, Kernel, Garbage, put_thread, empty_thread}
use alux.Ipc.Ports as port_ends
use alux.Scheduler.Collector.{throw_away}
use alux.Scheduler.Queue
use alux.Tasks.Stored
use alux.Tasks.Task
use alux.Threads.Access.{get_task, get_scheduler, get_task_scheduler}
use alux.Threads.Life.{dealloc_ports, leave_scheduler, leave_task, dealloc}
use alux.Threads.Ports
use alux.Threads.References.{Counted, weight}

-- A step that changes no task, thread or list of threads.
record SameThreads (k k' : Kernel) : Type 0 where
  threads : k'.threads ≡ k.threads
  tasks : k'.tasks ≡ k.tasks
  lists : k'.thread_lists ≡ k.thread_lists

-- No port of the thread has a terminal, as is so for every port (see `Ipc.Attachment`).
abbrev pub NoTerminals : Kernel → List ℕ → Type 0
NoTerminals k ps = All (λ p. (k.ports p).terminal ≡ none) ps

NoTerminals-mono :
    (k k' : Kernel) (ps : List ℕ)
    → ((p : ℕ) → (k.ports p).terminal ≡ none → (k'.ports p).terminal ≡ none)
    → NoTerminals k ps
    → NoTerminals k' ps
NoTerminals-mono k k' [] f v = tt
NoTerminals-mono k k' (p ∷ ps) f v = (f p v.0, NoTerminals-mono k k' ps f v.1)

module _ (L : LinkedList Garbage) (P : LinkedList ℕ) (M : IdMap) where
  sever-NoTerminals :
      (k : Kernel) (p : ℕ) → (k.ports p).terminal ≡ none → port_ends.sever L k p ≡ some k
  unfolding port_ends.sever port_ends.get_terminal
  sever-NoTerminals k p e = ground arith

  dealloc_ports-SameThreads :
      (k : Kernel) (ps : List ℕ)
      → NoTerminals k ps
      → Returns (dealloc_ports L P M k ps) (SameThreads k)
  unfolding dealloc_ports Ports.dealloc Ports.new_port
  dealloc_ports-SameThreads k [] v = record { threads = refl; tasks = refl; lists = refl }
  dealloc_ports-SameThreads k (p ∷ ps) v =
      let k' = put_stale (Ports.dealloc M P k p false) p in
      rw (sever-NoTerminals k p v.0) (
        Returns-mono (SameThreads k') (SameThreads k) (dealloc_ports L P M k' ps)
          (dealloc_ports-SameThreads k' ps (NoTerminals-mono k k' ps (λ q e. ground arith) v.1))
          (λ k2 s. record { threads = s.threads; tasks = s.tasks; lists = s.lists }))

  leave_scheduler-SameThreads :
      (k : Kernel) (x : ℕ)
      → (k.threads x).in_task ≡ true
      → (k.tasks (k.threads x).task).in_scheduler ≡ true
      → Returns (leave_scheduler L P M k x) (SameThreads k)
  unfolding leave_scheduler get_task_scheduler get_task get_scheduler Queue.remove
  leave_scheduler-SameThreads k x h s = ground arith

  -- What `Dealloc` of a killed thread leaves of tasks, threads and lists.
  pub record Gone (k : Kernel) (x : ℕ) (k' : Kernel) : Type 0 where
    pub threads : k'.threads ≡ update k.threads x empty_thread
    pub tasks :
        k'.tasks ≡ update k.tasks (k.threads x).task (Task.release (k.tasks (k.threads x).task)).0
    pub lists :
        k'.thread_lists
        ≡ update k.thread_lists (k.threads x).task (M.remove (k.thread_lists (k.threads x).task) x)

  leave_task-Gone :
      (k : Kernel) (x : ℕ)
      → (k.threads x).in_task ≡ true
      → (k.threads x).killed ≡ true
      → (k.tasks (k.threads x).task).in_scheduler ≡ true
      → Returns (leave_task L P M k x >>= λ k2. some (put_thread k2 x empty_thread)) (Gone k x)
  unfolding leave_task get_task get_scheduler Stored.release throw_away
  leave_task-Gone k x h d s = ground arith

  SameThreads-Gone : {k k' k2 : Kernel} (x : ℕ) → SameThreads k k' → Gone k' x k2 → Gone k x k2
  SameThreads-Gone {k} {k'} {k2} x f g = record {
    threads = rw f.threads at g.threads;
    tasks = rw (f.tasks, f.threads) at g.tasks;
    lists = rw (f.lists, f.threads) at g.lists;
  }

  -- What a thread must be for its `Dealloc`: the collector has it after the last release of a killed
  -- thread.
  pub record IsDead (k : Kernel) (x : ℕ) : Type 0 where
    pub joined : (k.threads x).in_task ≡ true
    pub killed : (k.threads x).killed ≡ true
    pub idle : (k.threads x).retain_count ≡ 0
    pub scheduled : (k.tasks (k.threads x).task).in_scheduler ≡ true
    pub word : (k.tasks (k.threads x).task).retain_count < 2 ^ 31
    pub ports : NoTerminals k (k.threads x).port_list

  pub dealloc-Gone : (k : Kernel) (x : ℕ) → IsDead k x → Returns (dealloc L P M k x) (Gone k x)
  unfolding dealloc
  dealloc-Gone k x d =
      Returns->>= (SameThreads k) (Gone k x) (dealloc_ports L P M k (k.threads x).port_list) _
        (dealloc_ports-SameThreads k (k.threads x).port_list d.ports)
        λ k1 s1.
          Returns->>= (SameThreads k1) (Gone k x) (leave_scheduler L P M k1 x) _
            (leave_scheduler-SameThreads k1 x (rw s1.threads d.joined)
              (rw (s1.tasks, s1.threads) d.scheduled))
            λ k2 s2.
              Returns-mono (Gone k2 x) (Gone k x) _
                (leave_task-Gone k2 x (rw (s2.threads, s1.threads) d.joined)
                  (rw (s2.threads, s1.threads) d.killed)
                  (rw (s2.tasks, s2.threads, s1.tasks, s1.threads) d.scheduled))
                (λ k3 g. SameThreads-Gone x s1 (SameThreads-Gone x s2 g))

  -- The dead thread accounts for one reference, and no other does for it.
  removed :
      {others : ℕ → ℕ} {k : Kernel} (v : Counted others k) (x : ℕ)
      → IsDead k x
      → let hs = k.thread_lists (k.threads x).task in
        sum_by weight (update k.threads x empty_thread) (M.remove hs x) + 1
        ≡ sum_by weight k.threads hs
  unfolding sum_by occurrences
  removed {k = k} v x d =
      let hs = k.thread_lists (k.threads x).task in
      let rest = M.remove hs x in
      let gone : occurrences x rest ≡ 0 = ground (arith, v.listed x, M.occurrences-remove hs x x) in
      let same : sum_by weight k.threads (x ∷ rest) ≡ sum_by weight k.threads hs =
        sum-occurrences weight k.threads (x ∷ rest) hs
          (λ y. ground (arith, M.occurrences-remove hs x y, v.listed x)) in
      ground (arith, same, gone, sum-update_absent {0} weight k.threads x empty_thread rest)

  pub Gone-Counted :
      {others : ℕ → ℕ} {k k' : Kernel} (x : ℕ)
      → Counted others k
      → IsDead k x
      → Gone k x k'
      → Counted others k'
  unfolding Task.release
  Gone-Counted {k = k} x v d g = record {
    listed =
        rw (g.threads, g.lists)
          (λ y e.
            ground
              (arith, v.listed y, M.occurrences-remove (k.thread_lists (k.threads x).task) x y));
    own =
        rw (g.threads, g.lists)
          (λ task y e. ground (
            arith,
            v.own task y,
            v.listed x,
            M.occurrences-remove (k.thread_lists (k.threads x).task) x y,
          ));
    exact =
        rw (g.threads, g.lists, g.tasks)
          (λ task. ground (
            arith,
            v.exact task,
            v.own task x,
            removed v x d,
            sum-update_absent {0} weight k.threads x empty_thread (k.thread_lists task),
          ));
  }
