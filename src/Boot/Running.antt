-- ===== src/Boot/Running.antt =====
-- The kernel from its boot on: the first switches.
use alux.Prelude.{
  ℕ, ◌^◌, ◌<◌, ◌≤◌, ◌≡◌, ◌≢◌, refl, true, false, none, some, List, [], ◌∷◌, ◌++◌, LinkedList, IdMap,
  ap, ◌∙◌, Returns->>=, Returns-both, Returns-result, All, occurrences, length, Returns, some->>=,
  arith,
}
use alux.Kernel.{Kernel, Garbage, put_task}
use alux.Boot.Start.{Fresh, root, new_kernel_task, new_user_task, construct, start_user, boot, run}
use alux.Boot.Established.{begun, first_thread-begun, begun-Inv}
use alux.Scheduler.Exclusion.{Inv, Agrees, switch-Inv}
use alux.Scheduler.Fairness.{IsReady, Served, turn, switches_serve}
use alux.Scheduler.Turns.{ahead}
use alux.Scheduler.Switch.{switch, jiffy_us}
use alux.Scheduler.Lives.{run-SameLives, SameLives-IsAlive}
use alux.Tasks.Holding.{IsAlive}
use alux.Tasks.Task.{new_task}
use alux.Threads.Counts.{new_thread}
use alux.Threads.Starting.{launched}

-- The store before the boot: nothing is scheduled, and what counters stand in it are words.
pub record IsEmpty (k : Kernel) : Type 0 where
  pub no_threads : k.run_queue ≡ []
  pub no_current : (c : ℕ) → k.current c ≡ none
  pub words : (x : ℕ) → (k.threads x).retain_count < 2 ^ 32
  pub task_words : (i : ℕ) → (k.tasks i).retain_count < 2 ^ 32

module _ (L : LinkedList Garbage) (P : LinkedList ℕ) where
  -- From a state with the invariant, all CPUs switch without a failed assertion.
  pub run-Inv :
      (k : Kernel) (scale : ℕ → ℕ) (cpus : List (ℕ × ℕ))
      → Inv k
      → Returns (run L P k scale cpus) Inv
  unfolding run
  run-Inv k scale [] v = v
  run-Inv k scale ((cpu, now) ∷ cpus) v =
      Returns->>= (λ r. Inv r.0 × Agrees r.0 cpu (scale jiffy_us) r.1) Inv
        (switch L P k cpu now scale) _ (switch-Inv L P k cpu now scale v)
        (λ r w. run-Inv r.0 scale cpus w.0)

-- A new task changes nothing for the scheduler.
new_task-Inv : (k : Kernel) (task uid : ℕ) → Inv k → Inv (put_task k task (new_task uid))
unfolding new_task
new_task-Inv k task uid v = record {
  joined = v.joined;
  enqueued = v.enqueued;
  marked = v.marked;
  apart = v.apart;
  words = v.words;
  task_words = λ i. ground (arith, v.task_words i);
}

IsEmpty-Inv : (k : Kernel) → IsEmpty k → Inv k
IsEmpty-Inv k v = record {
  joined = rw v.no_threads tt;
  enqueued = λ c x e. ground (arith, v.no_current c);
  marked = λ c x e. ground (arith, v.no_current c);
  apart = λ c d x e e'. ground (arith, v.no_current c);
  words = v.words;
  task_words = v.task_words;
}

module _ (L : LinkedList Garbage) (P : LinkedList ℕ) (T M : IdMap) (k : Kernel) (c u : Fresh)
    (t1 t2 n1 n2 : ℕ) (ts1 ts2 ths1 ths2 : List ℕ) where
  -- The store after the constructor of the scheduler, and after the boot.
  abbrev constructed : Kernel
  constructed = begun L P T M (put_task k c.task (new_task root)) c true t1 n1 ts1 ths1

  abbrev pub booted : Kernel
  booted = begun L P T M (put_task constructed u.task (new_task root)) u false t2 n2 ts2 ths2

  pub boot-booted :
      c.task ≢ u.task
      → T.add k.task_list c.task ≡ some (t1, ts1)
      → T.add ts1 u.task ≡ some (t2, ts2)
      → M.add (k.thread_lists c.task) c.thread ≡ some (n1, ths1)
      → M.add (k.thread_lists u.task) u.thread ≡ some (n2, ths2)
      → boot L P T M k c u ≡ some booted
  unfolding boot construct start_user new_kernel_task new_user_task launched
  boot-booted d e1 e2 e3 e4 =
      some->>= _
        (first_thread-begun L P T M (put_task k c.task (new_task root)) c true root t1 n1 ts1 ths1
          (ground arith) e1 e3)
        (first_thread-begun L P T M (put_task constructed u.task (new_task root)) u false root t2 n2
          ts2 ths2 (ground arith) e2 (ground arith))

  one_listed : IsEmpty k → P.add k.run_queue c.thread ≡ c.thread ∷ []
  one_listed v = P.add-back k.run_queue c.thread ∙ ap (λ q. q ++ c.thread ∷ []) v.no_threads

  two_listed : IsEmpty k → P.add (P.add k.run_queue c.thread) u.thread ≡ c.thread ∷ u.thread ∷ []
  two_listed v = P.add-back _ u.thread ∙ ap (λ q. q ++ u.thread ∷ []) (one_listed v)

  pub booted-Inv : IsEmpty k → c.thread ≢ u.thread → Inv booted
  unfolding launched occurrences
  booted-Inv v d =
      begun-Inv L P T M (put_task constructed u.task (new_task root)) u false root t2 n2 ts2 ths2
        (ground arith) (rw (one_listed v) (ground arith))
        (new_task-Inv constructed u.task root (
          begun-Inv L P T M (put_task k c.task (new_task root)) c true root t1 n1 ts1 ths1
            (ground arith) (rw v.no_threads refl) (new_task-Inv k c.task root (IsEmpty-Inv k v))))

  booted-IsReady :
      IsEmpty k
      → c.thread ≢ u.thread
      → IsReady booted u.deadline u.thread × (turn booted u.thread ≡ 1)
  unfolding launched new_task new_thread occurrences ahead
  booted-IsReady v d =
      let kept : booted.run_queue ≡ c.thread ∷ u.thread ∷ [] = two_listed v in
      (
        record {
          idle = ground arith;
          alive = ground arith;
          due = ground arith;
          listed = rw (two_listed v) (ground arith);
          once = λ y. rw (two_listed v) (ground arith);
        },
        rw (two_listed v) (ground arith),
      )

  -- The boot starts the user's program. From an empty store, when the list of the scheduler and those
  -- of the two tasks have an identifier left and the addresses of the new objects differ, the boot
  -- returns: no assertion fails in it and it does not panic. If the CPUs then switch in any order, at
  -- times from the unset deadline of the user's thread on, no switch fails an assertion, they keep the
  -- invariant of the scheduler, and one of the first two, or of any larger number, resumes that thread.
  pub boot_serves :
      (scale : ℕ → ℕ) (es : List (ℕ × ℕ))
      → IsEmpty k
      → c.task ≢ u.task
      → c.thread ≢ u.thread
      → T.add k.task_list c.task ≡ some (t1, ts1)
      → T.add ts1 u.task ≡ some (t2, ts2)
      → M.add (k.thread_lists c.task) c.thread ≡ some (n1, ths1)
      → M.add (k.thread_lists u.task) u.thread ≡ some (n2, ths2)
      → All (λ e. u.deadline ≤ e.1) es
      → 1 < length es
      → Returns
          (boot L P T M k c u)
          (λ r. Returns (run L P r scale es) Inv × Served L P scale r u.thread es)
  boot_serves scale es v d d' e1 e2 e3 e4 h n =
      let i = booted-Inv v d' in
      let (ready, before) = booted-IsReady v d' in
      rw (boot-booted d e1 e2 e3 e4) (
        run-Inv L P booted scale es i,
        switches_serve L P booted u.deadline u.thread scale es i ready h (omega (arith, before, n)),
      )

  booted-IsAlive : IsAlive (record { kernel = booted; critical = true }) u.thread
  unfolding launched new_task new_thread
  booted-IsAlive = record { joined = ground arith; small = ground arith; alive = ground arith }

  -- The boot and any switches after it return, keep the invariant of the scheduler, and leave the
  -- user's thread alive.
  pub boot-IsAlive :
      (scale : ℕ → ℕ) (es : List (ℕ × ℕ))
      → IsEmpty k
      → c.task ≢ u.task
      → c.thread ≢ u.thread
      → T.add k.task_list c.task ≡ some (t1, ts1)
      → T.add ts1 u.task ≡ some (t2, ts2)
      → M.add (k.thread_lists c.task) c.thread ≡ some (n1, ths1)
      → M.add (k.thread_lists u.task) u.thread ≡ some (n2, ths2)
      → Returns (boot L P T M k c u) (λ r.
        Returns
          (run L P r scale es)
          (λ k'. Inv k' × IsAlive (record { kernel = k'; critical = true }) u.thread))
  boot-IsAlive scale es v d d' e1 e2 e3 e4 = rw (boot-booted d e1 e2 e3 e4) (
      Returns-both Inv (λ k'. IsAlive (record { kernel = k'; critical = true }) u.thread)
        (run L P booted scale es) (run-Inv L P booted scale es (booted-Inv v d'))
        (Returns-result Inv _ (run L P booted scale es)
          (run-Inv L P booted scale es (booted-Inv v d'))
          (λ k' e.
            SameLives-IsAlive u.thread (run-SameLives L P booted scale es e) booted-IsAlive)))
