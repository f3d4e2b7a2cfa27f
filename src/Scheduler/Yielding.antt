-- ===== src/Scheduler/Yielding.antt =====
-- A switch of kernel/src/scheduler/rr-scheduler.cpp as kernel/src/scheduler/scheduler.hpp sees it.
use alux.Prelude.{
  ℕ, ◌≡◌, ◌⊎◌, refl, inl, inr, subst, true, ◌==◌, Bool-cases, Option-cases, none, some, LinkedList,
  All-at, Returns, Returns->>=, Returns-mono, Returns-both, occurrences-first, occurrences-rotate,
  first, update, arith, ◌>>=◌, SameItems, bag_of, same_bag, units,
}
use alux.Kernel.{Kernel, Garbage}
use alux.Tasks.Task
use alux.Tasks.Stored
use alux.Scheduler.Collector.{throw_away}
use alux.Scheduler.Contract.{Scheduler, Yields}
use alux.Threads.Counts.{release}
use alux.Threads.Access.{get_task}
use alux.Scheduler.Turns.{first-found}
use alux.Scheduler.Switch.{
  Outcome, resumes, waits, find_next, resign_current, retired, claimed, set_current, switch, resume,
  jiffy_us,
}
use alux.Scheduler.Selection.{can_retain, is_eligible, retained, find_next-first}
use alux.Scheduler.Exclusion.{
  Inv, Frame, release-Frame, joined-IsListed, switch-Inv, resign_current-Inv,
}

-- What `scheduler.hpp` shows of the kernel.
abbrev pub view : Kernel → Scheduler
view k = record {
  threads = bag_of k.run_queue;
  deadline = λ x. (k.objs x).deadline;
  current = k.current;
  collector = k.collector_thread;
}

-- A thread that is marked as running is current on some CPU.
abbrev pub IsTruthful : Kernel → Type 0
IsTruthful k = (x : ℕ) → (k.objs x).running ≡ true → (c : ℕ) × (k.current c ≡ some x)

-- What `Thread::Release` leaves of what a switch looks at.
record Calm (k k' : Kernel) : Type 0 where
  alive : (x : ℕ) → can_retain k' x ≡ can_retain k x
  collector : k'.collector_thread ≡ k.collector_thread
  deadline :
      (x : ℕ)
      → ((k'.objs x).deadline ≡ (k.objs x).deadline)
        ⊎ (x ≡ k.collector_thread) × ((k'.objs x).deadline ≡ 0)

release-Calm :
    (L : LinkedList Garbage) (k : Kernel) (th : ℕ)
    → (k.threads th).in_task ≡ true
    → Returns (release L k th) (Calm k)
unfolding release Stored.release throw_away Task.release get_task
release-Calm L k th h = ground arith

-- The CPU has given up its thread.
record Resigned (k : Kernel) (cpu : ℕ) (k' : Kernel) : Type 0 where
  items : SameItems k'.run_queue k.run_queue
  current : (c : ℕ) → k'.current c ≡ update k.current cpu none c
  calm : Calm k k'
  truthful : IsTruthful k'

module _ (L : LinkedList Garbage) (P : LinkedList ℕ) where
  retired-IsTruthful :
      (k : Kernel) (cpu th : ℕ)
      → k.current cpu ≡ some th
      → IsTruthful k
      → IsTruthful (retired P k cpu th)
  retired-IsTruthful k cpu th e v x r = let (c, h) = v x (ground arith) in (c, ground arith)

  released-Resigned :
      (k : Kernel) (cpu th : ℕ) (k' : Kernel)
      → Inv k
      → k.current cpu ≡ some th
      → IsTruthful k
      → Frame (retired P k cpu th) k'
      → Calm (retired P k cpu th) k'
      → Resigned k cpu k'
  released-Resigned k cpu th k' v e t f s = record {
    items = rw f.run_queue (λ y. occurrences-rotate P th y k.run_queue (v.enqueued cpu th e));
    current = f.current;
    calm = record {
      alive = s.alive;
      collector = s.collector;
      deadline = λ x. ground (arith, s.deadline x);
    };
    truthful = λ x r.
        let (c, h) = retired-IsTruthful k cpu th e t x (ground (arith, f.running x)) in
        (c, ground (arith, f.current c));
  }

  resign_current-Resigned :
      (k : Kernel) (cpu : ℕ)
      → Inv k
      → IsTruthful k
      → Returns (resign_current L P k cpu) (Resigned k cpu)
  unfolding resign_current
  resign_current-Resigned k cpu v t = elim (Option-cases (k.current cpu)) [
    | inl e ↦
        rw (e, resign_current)
          (record {
            items = λ y. refl;
            current = λ c. ground arith;
            calm = record { alive = λ x. refl; collector = refl; deadline = λ x. inl refl };
            truthful = t;
          })
    | inr (th, e) ↦
        let k1 = retired P k cpu th in
        let joined = All-at _ th k.run_queue v.joined (v.enqueued cpu th e) in
        subst (λ o. Returns o (Resigned k cpu)) (ground arith)
          (Returns-mono (λ k'. Frame k1 k' × Calm k1 k') (Resigned k cpu) (release L k1 th)
            (Returns-both (Frame k1) (Calm k1) (release L k1 th) (release-Frame L k1 th joined)
              (release-Calm L k1 th joined))
            (λ k' f. released-Resigned k cpu th k' v e t f.0 f.1))
  ]

  -- A switch, seen from before the CPU gave up its thread.
  abbrev pub Yielded : Kernel → (cpu now : ℕ) → Kernel × Outcome → Type 0
  Yielded k cpu now r = Yields (can_retain k) cpu now (view k) (view r.0) × IsTruthful r.0

  waited-Yielded :
      (k0 k : Kernel) (cpu now timeout : ℕ)
      → Resigned k0 cpu k
      → first (is_eligible k now) k.run_queue ≡ none
      → Yielded k0 cpu now (k, waits timeout)
  unfolding units
  waited-Yielded k0 k cpu now timeout w q = (
    record {
      next = none;
      threads = same_bag w.items;
      collector = w.calm.collector;
      current = w.current;
      deadline = w.calm.deadline;
      may_go_on = λ x (listed, alive, due, elsewhere). elim (Bool-cases (k.objs x).running) [
        | inl r ↦ let (c, h) = w.truthful x r in elsewhere c (λ s. ground (arith, w.current c)) h
        | inr r ↦
            let (y, e) =
              first-found (is_eligible k now) x k.run_queue (ground (arith, w.calm.alive x))
                listed in
            ground arith
      ];
    },
    w.truthful,
  )

  claimed-Yielded :
      (k0 k : Kernel) (cpu now x timeout : ℕ)
      → Inv k
      → k.current cpu ≡ none
      → Resigned k0 cpu k
      → first (is_eligible k now) k.run_queue ≡ some x
      → Yielded k0 cpu now (set_current (claimed (retained k x) x) cpu (some x), resumes x timeout)
  unfolding units
  claimed-Yielded k0 k cpu now x timeout v e w q =
      let (h, fit) = occurrences-first (is_eligible k now) k.run_queue x q in
      (
        record {
          next = some x;
          threads = same_bag w.items;
          collector = w.calm.collector;
          current = λ c. ground (arith, w.current c);
          deadline = λ y. ground (arith, w.calm.deadline y);
          may_go_on = (
            h,
            ground (arith, w.calm.alive x),
            ground arith,
            λ c n r. ground (arith, v.marked c x),
          );
        },
        λ y r. elim (Bool-cases (y == x)) [
          | inl s ↦ (cpu, ground arith)
          | inr s ↦ let (c, a) = w.truthful y (ground arith) in (c, ground arith)
        ],
      )

  pick-Yielded :
      (k0 k : Kernel) (cpu now : ℕ) (scale : ℕ → ℕ)
      → Inv k
      → k.current cpu ≡ none
      → Resigned k0 cpu k
      → Returns
          (find_next L k now k.run_queue >>= λ r. resume L P r.0 cpu scale r.1)
          (Yielded k0 cpu now)
  unfolding resume get_task
  pick-Yielded k0 k cpu now scale v e w =
      rw (find_next-first L k now k.run_queue (joined-IsListed k v k.run_queue v.joined))
        (elim (Option-cases (first (is_eligible k now) k.run_queue)) [
          | inl q ↦ rw q (waited-Yielded k0 k cpu now (scale jiffy_us) w q)
          | inr (x, q) ↦
              let (h, fit) = occurrences-first (is_eligible k now) k.run_queue x q in
              let k' = set_current (claimed (retained k x) x) cpu (some x) in
              subst (λ o. Returns o (Yielded k0 cpu now))
                {x = some (k', resumes x (scale jiffy_us))}
                (ground
                  (arith, All-at (λ z. (k.threads z).in_task ≡ true) x k.run_queue v.joined h))
                (claimed-Yielded k0 k cpu now x (scale jiffy_us) v e w q)
        ])

  -- A switch keeps the invariant of the scheduler, and is a `Yield` as the contract has it.
  pub switch-Yields :
      (k : Kernel) (cpu now : ℕ) (scale : ℕ → ℕ)
      → Inv k
      → IsTruthful k
      → Returns (switch L P k cpu now scale) (λ r. Inv r.0 × Yielded k cpu now r)
  unfolding switch
  switch-Yields k cpu now scale v t =
      Returns-both (λ r. Inv r.0) (Yielded k cpu now) (switch L P k cpu now scale)
        (Returns-mono _ (λ r. Inv r.0) (switch L P k cpu now scale)
          (switch-Inv L P k cpu now scale v) (λ s w. w.0))
        (Returns->>= (λ k'. (Inv k' × (k'.current cpu ≡ none)) × Resigned k cpu k')
          (Yielded k cpu now) (resign_current L P k cpu) _
          (Returns-both _ _ (resign_current L P k cpu) (resign_current-Inv L P k cpu v)
            (resign_current-Resigned k cpu v t))
          (λ k' w. pick-Yielded k k' cpu now scale w.0.0 w.0.1 w.1))
