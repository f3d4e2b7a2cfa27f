-- ===== src/Scheduler/Barred.antt =====
-- Threads that may not run, under the switches of kernel/src/scheduler/rr-scheduler.cpp.
use alux.Prelude.{
  ℕ, ◌<◌, refl, ◌≡◌, ◌≢◌, ◌⊎◌, inl, inr, subst, true, Option-cases, none, some, LinkedList, All-at,
  Returns, Returns->>=, Returns-mono, Returns-both, occurrences-first, first, arith, ◌>>=◌,
}
use alux.Kernel.{Kernel, Garbage}
use alux.Tasks.Task
use alux.Tasks.Stored
use alux.Scheduler.Collector.{throw_away}
use alux.Threads.Counts.{release, kill}
use alux.Threads.Access.{get_task}
use alux.Scheduler.Switch.{
  Outcome, resumes, waits, find_next, resign_current, retired, claimed, set_current, switch, resume,
  jiffy_us,
}
use alux.Scheduler.Selection.{is_eligible, retained, find_next-first}
use alux.Scheduler.Exclusion.{
  Inv, Frame, release-Frame, joined-IsListed, switch-Inv, resign_current-Inv,
}

-- The thread may not run at the time: it is killed, or its deadline is later and not one that
-- `ClearGarbageTimeout` clears.
abbrev pub IsBarred : Kernel → (x now : ℕ) → Type 0
IsBarred k x now =
    ((k.threads x).killed ≡ true) ⊎ (now < (k.objs x).deadline) × (x ≢ k.collector_thread)

-- The thread may not run at the times, and no CPU but this one runs it.
pub record IsLeaving (T : ℕ → Type 0) (k : Kernel) (cpu x : ℕ) : Type 0 where
  pub barred : (now : ℕ) → T now → IsBarred k x now
  pub elsewhere : (c : ℕ) → c ≢ cpu → k.current c ≢ some x

-- The thread may not run at the times, and no CPU runs it.
pub record IsGone (T : ℕ → Type 0) (k : Kernel) (x : ℕ) : Type 0 where
  pub barred : (now : ℕ) → T now → IsBarred k x now
  pub nowhere : (c : ℕ) → k.current c ≢ some x

-- The CPU goes on with something else than the thread.
abbrev pub Spurns : ℕ → Outcome → Type 0
Spurns x (resumes y t) = y ≢ x
Spurns x (waits t) = Unit

-- A step that keeps a thread from running.
pub record Bars (k k' : Kernel) : Type 0 where
  killed : (x : ℕ) → (k.threads x).killed ≡ true → (k'.threads x).killed ≡ true
  deadline : (x : ℕ) → x ≢ k.collector_thread → (k'.objs x).deadline ≡ (k.objs x).deadline
  collector : k'.collector_thread ≡ k.collector_thread

pub Bars-IsBarred : {k k' : Kernel} (x now : ℕ) → Bars k k' → IsBarred k x now → IsBarred k' x now
Bars-IsBarred x now s (inl e) = inl (s.killed x e)
Bars-IsBarred x now s (inr (lt, n)) =
    inr (ground (arith, s.deadline x n), ground (arith, s.collector))

IsBarred-other : (k : Kernel) (x y now : ℕ) → IsBarred k x now → is_eligible k now y ≡ true → y ≢ x
IsBarred-other k x y now (inl e) fit = ground arith
IsBarred-other k x y now (inr (lt, n)) fit = ground arith

release-Bars :
    (L : LinkedList Garbage) (k : Kernel) (th : ℕ)
    → (k.threads th).in_task ≡ true
    → Returns (release L k th) (Bars k)
unfolding release Stored.release throw_away Task.release get_task
release-Bars L k th h = ground arith

retired-Bars : (P : LinkedList ℕ) (k : Kernel) (cpu th : ℕ) → Bars k (retired P k cpu th)
retired-Bars P k cpu th = record {
  killed = λ x e. e;
  deadline = λ x n. ground arith;
  collector = refl;
}

picked-Bars :
    (k : Kernel) (cpu y : ℕ) → Bars k (set_current (claimed (retained k y) y) cpu (some y))
picked-Bars k cpu y = record {
  killed = λ x e. ground arith;
  deadline = λ x n. ground arith;
  collector = refl;
}

pub kill-Bars : (k : Kernel) (th : ℕ) → Bars k (kill k th)
unfolding kill
kill-Bars k th = record { killed = λ x e. ground arith; deadline = λ x n. refl; collector = refl }

module _ (L : LinkedList Garbage) (P : LinkedList ℕ) (T : ℕ → Type 0) where
  resign_current-IsLeaving :
      (k : Kernel) (cpu x : ℕ)
      → Inv k
      → IsLeaving T k cpu x
      → Returns (resign_current L P k cpu) (λ k'. IsLeaving T k' cpu x)
  unfolding resign_current
  resign_current-IsLeaving k cpu x v d = elim (Option-cases (k.current cpu)) [
    | inl e ↦ rw (e, resign_current) d
    | inr (th, e) ↦
        let k1 = retired P k cpu th in
        let joined = All-at _ th k.run_queue v.joined (v.enqueued cpu th e) in
        subst (λ o. Returns o (λ k'. IsLeaving T k' cpu x)) (ground arith)
          (Returns-mono (λ k'. Frame k1 k' × Bars k1 k') _ (release L k1 th)
            (Returns-both (Frame k1) (Bars k1) (release L k1 th) (release-Frame L k1 th joined)
              (release-Bars L k1 th joined))
            λ k' f. record {
              barred = λ now t.
                  Bars-IsBarred x now f.1
                    (Bars-IsBarred x now (retired-Bars P k cpu th) (d.barred now t));
              elsewhere = λ c n q. ground (arith, d.elsewhere c n, f.0.current c);
            })
  ]

  -- The thread has given up the CPU, which goes on without it.
  abbrev pub Left : ℕ → Kernel × Outcome → Type 0
  Left x r = IsGone T r.0 x × Spurns x r.1

  pick-Left :
      (k : Kernel) (cpu now x : ℕ) (scale : ℕ → ℕ)
      → Inv k
      → k.current cpu ≡ none
      → T now
      → IsLeaving T k cpu x
      → Returns (find_next L k now k.run_queue >>= λ r. resume L P r.0 cpu scale r.1) (Left x)
  unfolding resume get_task
  pick-Left k cpu now x scale v e t d =
      rw (find_next-first L k now k.run_queue (joined-IsListed k v k.run_queue v.joined))
        (elim (Option-cases (first (is_eligible k now) k.run_queue)) [
          | inl q ↦
              subst (λ o. Returns o (Left x)) {x = some (k, waits (scale jiffy_us))} (ground arith)
                (record { barred = d.barred; nowhere = λ c h. ground (arith, d.elsewhere c) }, tt)
          | inr (y, q) ↦
              let (h, fit) = occurrences-first (is_eligible k now) k.run_queue y q in
              let other : y ≢ x = IsBarred-other k x y now (d.barred now t) fit in
              let k' = set_current (claimed (retained k y) y) cpu (some y) in
              subst (λ o. Returns o (Left x)) {x = some (k', resumes y (scale jiffy_us))}
                (ground
                  (arith, All-at (λ z. (k.threads z).in_task ≡ true) y k.run_queue v.joined h))
                (
                  record {
                    barred = λ n s. Bars-IsBarred x n (picked-Bars k cpu y) (d.barred n s);
                    nowhere = λ c h'. ground (arith, d.elsewhere c);
                  },
                  other,
                )
        ])

  -- A switch at a time at which the thread may not run.
  pub switch-Left :
      (k : Kernel) (cpu now x : ℕ) (scale : ℕ → ℕ)
      → Inv k
      → T now
      → IsLeaving T k cpu x
      → Returns (switch L P k cpu now scale) (λ r. Inv r.0 × Left x r)
  unfolding switch
  switch-Left k cpu now x scale v t d =
      Returns-both (λ s. Inv s.0) (Left x) (switch L P k cpu now scale)
        (Returns-mono _ (λ s. Inv s.0) (switch L P k cpu now scale)
          (switch-Inv L P k cpu now scale v) (λ s w. w.0))
        (Returns->>= (λ k'. (Inv k' × (k'.current cpu ≡ none)) × IsLeaving T k' cpu x) (Left x)
          (resign_current L P k cpu) _
          (Returns-both _ _ (resign_current L P k cpu) (resign_current-Inv L P k cpu v)
            (resign_current-IsLeaving k cpu x v d))
          (λ k' w. pick-Left k' cpu now x scale w.0.0 w.0.1 t w.1))
