-- ===== src/Scheduler/Fulfilled.antt =====
-- The round-robin scheduler of kernel/src/scheduler/rr-scheduler.cpp keeps the contract of
-- kernel/src/scheduler/scheduler.hpp.
use alux.Prelude.{
  List, [], ◌∷◌, ◌∙◌, Returns-mono, ℕ, ◌<◌, ◌≡◌, refl, some, LinkedList, Returns, occurrences,
  occurrences-append, occurrences-unlink, occurrences-erase, arith, ◌>>=◌, Returns->>=, subst,
  All-add, All-unlink, same_bag, put, take_out,
}
use alux.Kernel.{Kernel, Garbage}
use alux.Scheduler.Contract
use alux.Scheduler.Contract.{Scheduler, Yields}
use alux.Scheduler.Exclusion.{Inv}
use alux.Scheduler.Exits.{armed-Inv}
use alux.Scheduler.Main.{infinite}
use alux.Scheduler.Queue
use alux.Scheduler.Selection.{can_retain}
use alux.Scheduler.Switch.{
  switch, yield_thread, set_timeout, set_infinite_timeout, set_timeout_unlocking,
  set_infinite_timeout_unlocking,
}
use alux.Boot.Start.{run}
use alux.Scheduler.Yielding.{view, Yielded, switch-Yields}
use alux.Threads.Sleep.{arm_timeout}
use alux.Scheduler.Promises.{
  Call, adds, removes, clears, clears_garbage, yields, times_out, times_out_for_ever,
  times_out_unlocking, times_out_for_ever_unlocking, runs, perform, IsFit, IsUnlock, Allowed,
  Unlocked, Ran, Promised,
}

view_ext :
    {s t : Scheduler}
    → s.threads ≡ t.threads
    → ((x : ℕ) → s.deadline x ≡ t.deadline x)
    → s.current ≡ t.current
    → s.collector ≡ t.collector
    → s ≡ t
view_ext a b c d i = record { threads = a i; deadline = λ x. b x i; current = c i; collector = d i }

module _ (L : LinkedList Garbage) (P : LinkedList ℕ) (scale : ℕ → ℕ) where
  add-IsFit :
      (k : Kernel) (th deadline : ℕ)
      → IsFit k
      → Allowed k (adds th deadline)
      → IsFit (Queue.add P k th deadline)
  unfolding Queue.add
  add-IsFit k th deadline v h =
      let e = P.add-back k.run_queue th in
      record {
        scheduler = record {
          joined = rw e (All-add _ th k.run_queue v.scheduler.joined h.0);
          enqueued = λ c x q.
              rw e (omega (arith, v.scheduler.enqueued c x q, occurrences-append th x k.run_queue));
          marked = λ c x q. ground (arith, v.scheduler.marked c x, h.1 c);
          apart = v.scheduler.apart;
          words = v.scheduler.words;
          task_words = v.scheduler.task_words;
        };
        truthful = λ x r. v.truthful x (ground arith);
      }

  add-view :
      (k : Kernel) (th deadline : ℕ)
      → view (Queue.add P k th deadline) ≡ Contract.add (view k) th deadline
  unfolding Queue.add Contract.add put occurrences
  add-view k th deadline =
      view_ext
        (same_bag
          (λ y. ground (arith, P.add-back k.run_queue th, occurrences-append th y k.run_queue)))
        (λ x. ground arith) refl refl

  remove-IsFit :
      (k : Kernel) (th : ℕ) → IsFit k → Allowed k (removes th) → IsFit (Queue.remove P k th)
  unfolding Queue.remove
  remove-IsFit k th v h = record {
    scheduler = record {
      joined = All-unlink P _ th k.run_queue h.0 v.scheduler.joined;
      enqueued = λ c x q.
          ground
            (arith, v.scheduler.enqueued c x, h.1 c, occurrences-unlink P th x k.run_queue h.0);
      marked = λ c x q. ground (arith, v.scheduler.marked c x, h.1 c);
      apart = v.scheduler.apart;
      words = v.scheduler.words;
      task_words = v.scheduler.task_words;
    };
    truthful = λ x r. v.truthful x (ground arith);
  }

  remove-view :
      (k : Kernel) (th : ℕ)
      → 0 < occurrences th k.run_queue
      → view (Queue.remove P k th) ≡ Contract.remove (view k) th
  unfolding Queue.remove Contract.remove take_out
  remove-view k th h =
      view_ext
        (same_bag (λ y.
          omega
            (arith, occurrences-unlink P th y k.run_queue h, occurrences-erase th y k.run_queue)))
        (λ x. ground arith) refl refl

  armed-IsFit : (k : Kernel) (th deadline : ℕ) → IsFit k → IsFit (arm_timeout k th deadline)
  unfolding arm_timeout
  armed-IsFit k th deadline v = record {
    scheduler = armed-Inv L P k th deadline v.scheduler;
    truthful = λ x r. v.truthful x (ground arith);
  }

  armed-view :
      (k : Kernel) (th deadline : ℕ)
      → view (arm_timeout k th deadline) ≡ Contract.set_timeout (view k) th deadline
  unfolding arm_timeout Contract.set_timeout
  armed-view k th deadline = view_ext refl (λ x. ground arith) refl refl

  yielded-IsFit :
      (k : Kernel) (cpu now : ℕ) (s : Scheduler)
      → IsFit k
      → view k ≡ s
      → Returns
          (switch L P k cpu now scale >>= λ r. some r.0)
          (λ k'. IsFit k' × Yields (can_retain k) cpu now s (view k'))
  yielded-IsFit k cpu now s v e =
      Returns->>= (λ r. Inv r.0 × Yielded L P k cpu now r)
        (λ k'. IsFit k' × Yields (can_retain k) cpu now s (view k')) (switch L P k cpu now scale) _
        (switch-Yields L P k cpu now scale v.scheduler v.truthful)
        (λ r w. (
          record { scheduler = w.0; truthful = w.1.1 },
          subst (λ t. Yields (can_retain k) cpu now t (view r.0)) e w.1.0,
        ))

  unlocked_lem :
      (k : Kernel) (cpu now deadline th : ℕ) (unlock : Kernel → Kernel)
      → IsFit k
      → k.current cpu ≡ some th
      → IsUnlock cpu unlock
      → Returns (set_timeout_unlocking L P k cpu deadline unlock now scale >>= λ r. some r.0) (λ k'.
        IsFit k' × Unlocked unlock cpu now (Contract.set_timeout (view k) th deadline) (view k'))
  unfolding set_timeout_unlocking yield_thread arm_timeout
  unlocked_lem k cpu now deadline th unlock v e u =
      let k1 = arm_timeout k th deadline in
      let here : (unlock k1).current cpu ≡ some th = u.current k1 ∙ e in
      rw (e, here)
        (Returns-mono _ _ (switch L P (unlock k1) cpu now scale >>= λ r. some r.0)
          (yielded-IsFit (unlock k1) cpu now (view (unlock k1))
            (u.fit k1 (armed-IsFit k th deadline v)) refl)
          (λ k' w.
            (w.0, record { at_release = k1; armed = armed-view k th deadline; yields = w.1 })))

  run-Ran :
      (k : Kernel) (cpus : List (ℕ × ℕ))
      → IsFit k
      → Returns (run L P k scale cpus) (λ k'. IsFit k' × Ran k cpus (view k'))
  unfolding run
  run-Ran k [] v = (v, refl)
  run-Ran k ((cpu, now) ∷ cpus) v =
      Returns->>= (λ r. Inv r.0 × Yielded L P k cpu now r) _ (switch L P k cpu now scale) _
        (switch-Yields L P k cpu now scale v.scheduler v.truthful)
        (λ r w.
          Returns-mono _ _ (run L P r.0 scale cpus)
            (run-Ran r.0 cpus (record { scheduler = w.0; truthful = w.1.1 }))
            (λ k' q. (q.0, (r.0, w.1.0, q.1))))

  -- The round-robin scheduler keeps the contract of a scheduler. From a state with its invariant,
  -- every method that is called as the contract allows returns, that is, fails no assertion, keeps
  -- the invariant, and does what the contract says, in a view that forgets the order of the threads:
  -- `Add`, `Remove` and the clearing of a timeout change just the threads and deadlines that they
  -- name; a CPU that gives up its thread goes on with one that lives, whose deadline is past and
  -- which runs nowhere else, or with none if there is no such thread, and the other CPUs, the threads
  -- and all deadlines but the collector's stay as they were. Where a timeout is set with a lock, the
  -- lock is released in a state in which the timeout has been set, and the CPU goes on from what this
  -- leaves, which has to keep the invariant and the thread of the CPU. `Run` is the yields of the CPUs,
  -- in the order in which they come. The methods are all of `Scheduler` but the two accessors.
  pub perform-Promised :
      (k : Kernel) (c : Call) (h : Allowed k c)
      → IsFit k
      → Returns (perform L P scale k c) (λ k'. IsFit k' × Promised k c h (view k'))
  unfolding yield_thread set_timeout set_infinite_timeout Contract.set_infinite_timeout
      Contract.clear_timeout Contract.clear_garbage_timeout Contract.set_timeout arm_timeout
      set_infinite_timeout_unlocking
  perform-Promised k (adds th deadline) h v = (add-IsFit k th deadline v h, add-view k th deadline)
  perform-Promised k (removes th) h v = (remove-IsFit k th v h, remove-view k th h.0)
  perform-Promised k (clears th) h v = (armed-IsFit k th 0 v, armed-view k th 0)
  perform-Promised k clears_garbage h v =
      (armed-IsFit k k.collector_thread 0 v, armed-view k k.collector_thread 0)
  perform-Promised k (yields cpu now) (th, e) v = rw e (yielded-IsFit k cpu now (view k) v refl)
  perform-Promised k (times_out cpu deadline now) (th, e) v = rw e (
      yielded-IsFit (arm_timeout k th deadline) cpu now _ (armed-IsFit k th deadline v)
        (armed-view k th deadline))
  perform-Promised k (times_out_for_ever cpu now) (th, e) v = rw e (
      yielded-IsFit (arm_timeout k th infinite) cpu now _ (armed-IsFit k th infinite v)
        (armed-view k th infinite))
  perform-Promised k (times_out_unlocking cpu deadline unlock now) (th, e, u) v =
      unlocked_lem k cpu now deadline th unlock v e u
  perform-Promised k (times_out_for_ever_unlocking cpu unlock now) (th, e, u) v =
      unlocked_lem k cpu now infinite th unlock v e u
  perform-Promised k (runs cpus) h v = run-Ran k cpus v
