-- ===== src/Boot/Established.antt =====
-- What a boot establishes.
use alux.Prelude.{
  ℕ, ◌^◌, ◌<◌, ◌≡◌, Bool, true, if◌then◌else◌, some, List, LinkedList, IdMap, All, All-add,
  occurrences, occurrences-append, some->>=, ap, arith,
}
use alux.Kernel.{Kernel, Garbage, put_task}
use alux.Scheduler.Collector.{throw_away}
use alux.Scheduler.Exclusion.{Inv, All-mono}
use alux.Threads.Counts.{new_thread}
use alux.Boot.Start.{Fresh, first_thread}
use alux.Tasks.Life as task_life
use alux.Tasks.Task
use alux.Tasks.Task.{new_task}
use alux.Tasks.Stored
use alux.Threads.Starting.{
  launched, create_thread-eq, add_to_task-eq, add_to_scheduler-eq, release-scheduled,
}

-- A task that has just been made.
abbrev pub HasTask : Kernel → ℕ → ℕ → Type 0
HasTask k task uid = k.tasks task ≡ new_task uid

module _ (L : LinkedList Garbage) (P : LinkedList ℕ) (T M : IdMap) where
  -- The store after the first thread of a task, whose new identifiers are `t` and `n`.
  abbrev pub begun : Kernel → Fresh → Bool → (t n : ℕ) → (ts ths : List ℕ) → Kernel
  begun k f collects t n ts ths =
      let c = if collects then f.thread else k.collector_thread in
      let k' = launched P (record k { collector_thread = c }) f.task f.thread n f.deadline ths in
      put_task (record k' { task_list = ts }) f.task
        (record (k.tasks f.task) { identifier = t; in_scheduler = true; hold_count = 0 })

  -- The task in the list of the scheduler.
  abbrev entered : Kernel → ℕ → ℕ → List ℕ → Kernel
  entered k task t ts =
      put_task (record k { task_list = ts }) task
        (record (k.tasks task) { identifier = t; in_scheduler = true })

  add_to_scheduler-entered :
      (k : Kernel) (task t : ℕ) (ts : List ℕ)
      → T.add k.task_list task ≡ some (t, ts)
      → task_life.add_to_scheduler T k task ≡ (entered k task t ts, true)
  unfolding task_life.add_to_scheduler Task.add_to_scheduler
  add_to_scheduler-entered k task t ts e = ground arith

  unhold-begun :
      (k : Kernel) (f : Fresh) (collects : Bool) (uid t n : ℕ) (ts ths : List ℕ)
      → HasTask k f.task uid
      → Stored.unhold L
          (launched P
            (record (entered k f.task t ts) {
              collector_thread = if collects then f.thread else k.collector_thread;
            })
            f.task
            f.thread
            n
            f.deadline
            ths)
          f.task
        ≡ begun k f collects t n ts ths
  unfolding Stored.unhold Task.unhold new_task launched throw_away
  unhold-begun k f collects uid t n ts ths h = ground arith

  pub first_thread-begun :
      (k : Kernel) (f : Fresh) (collects : Bool) (uid t n : ℕ) (ts ths : List ℕ)
      → HasTask k f.task uid
      → T.add k.task_list f.task ≡ some (t, ts)
      → M.add (k.thread_lists f.task) f.thread ≡ some (n, ths)
      → first_thread L P T M k f collects ≡ some (begun k f collects t n ts ths)
  unfolding first_thread new_task
  first_thread-begun k f collects uid t n ts ths h e e' =
      let k1 = entered k f.task t ts in
      let c = if collects then f.thread else k.collector_thread in
      let k2 = record k1 { collector_thread = c } in
      let live : (k1.tasks f.task).in_scheduler ≡ true = ground arith in
      let held : 0 < (k1.tasks f.task).hold_count = ground arith in
      let word : (k1.tasks f.task).retain_count < 2 ^ 32 = ground arith in
      rw (add_to_scheduler-entered k f.task t ts e) (
        some->>= _ (create_thread-eq k1 f.task f.thread f.identifier live held) (
          some->>= _ (add_to_task-eq M k2 f.task f.thread f.identifier n ths live e') (
            some->>= _ (add_to_scheduler-eq P k2 f.task f.thread f.identifier n f.deadline ths live)
              (some->>= _
                (release-scheduled L P k2 f.task f.thread f.identifier n f.deadline ths held word)
                (ap some (unhold-begun k f collects uid t n ts ths h))))))

  pub begun-Inv :
      (k : Kernel) (f : Fresh) (collects : Bool) (uid t n : ℕ) (ts ths : List ℕ)
      → HasTask k f.task uid
      → occurrences f.thread k.run_queue ≡ 0
      → Inv k
      → Inv (begun k f collects t n ts ths)
  unfolding launched new_thread new_task
  begun-Inv k f collects uid t n ts ths h o v =
      let k' = begun k f collects t n ts ths in
      let back = P.add-back k.run_queue f.thread in
      let old : All (λ x. (k'.threads x).in_task ≡ true) k.run_queue =
        All-mono _ _ k.run_queue (λ x q. ground arith) v.joined in
      record {
        joined = rw back (All-add _ f.thread k.run_queue old (ground arith));
        enqueued = λ c x e.
            rw back (ground (arith, v.enqueued c x, occurrences-append f.thread x k.run_queue));
        marked = λ c x e. ground (arith, v.marked c x, v.enqueued c x);
        apart = v.apart;
        words = λ x. ground (arith, v.words x);
        task_words = λ i. ground (arith, v.task_words i);
      }
