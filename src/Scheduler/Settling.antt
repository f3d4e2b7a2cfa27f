-- ===== src/Scheduler/Settling.antt =====
-- A switch of kernel/src/scheduler/rr-scheduler.cpp between system calls.
use alux.Prelude.{
  ℕ, Bool, true, ◌≡◌, ◌≢◌, refl, inl, inr, subst, false, Option-cases, Bool-cases, ◌==◌, none, some,
  LinkedList, All-at, Returns, Returns->>=, Returns-mono, Returns-both, Returns-result,
  occurrences-first, first, arith, ◌>>=◌,
}
use alux.Kernel.{Kernel, Garbage}
use alux.Scheduler.Collector.{throw_away}
use alux.Scheduler.Exclusion.{Inv, joined-IsListed, resign_current-Inv}
use alux.Scheduler.Selection.{is_eligible, retained, find_next-first}
use alux.Scheduler.Sound.{Elsewhere, switch-Others}
use alux.Scheduler.Stable.{IsStable, switch-IsStable}
use alux.Scheduler.Switch.{
  Outcome, find_next, resign_current, retired, claimed, set_current, switch, resume, resumes,
  jiffy_us,
}
use alux.Tasks.Steady.{
  IsSettled, IsOutside, Orderly, Steady, Steady-same, Steady-trans, Steady-Keeps, Keeps-IsSettled,
}
use alux.Tasks.Stored
use alux.Tasks.Task
use alux.Threads.Access.{get_task}
use alux.Threads.Counts.{retain, release}

-- A step that leaves threads, tasks, lists and ports alone
pub Steady-eq :
    (k k' : Kernel)
    → k'.threads ≡ k.threads
    → k'.tasks ≡ k.tasks
    → k'.thread_lists ≡ k.thread_lists
    → k'.ports ≡ k.ports
    → Steady k k'
Steady-eq k k' e e' e'' p = record {
  stays = record {
    in_task = λ x. rw e refl;
    task = λ x. rw e refl;
    in_scheduler = λ i. rw e' refl;
    lists = λ i. rw e'' refl;
    terminals = λ q h. rw p h;
  };
  holds = λ i. rw e' refl;
  holding = λ x. rw e refl;
  killed = λ x d. rw e d;
}

retain-Steady : (k : Kernel) (x : ℕ) {r : Kernel × Bool} → retain k x ≡ some r → Steady k r.0
unfolding retain get_task Stored.retain Task.retain
retain-Steady k x h = record {
  stays = record {
    in_task = λ y. ground (arith, h);
    task = λ y. ground (arith, h);
    in_scheduler = λ i. ground (arith, h);
    lists = λ i. ground (arith, h);
    terminals = λ p e. ground (arith, h, e);
  };
  holds = λ i. ground (arith, h);
  holding = λ y. ground (arith, h);
  killed = λ y d. ground (arith, h, d);
}

release-Steady :
    (L : LinkedList Garbage) (k : Kernel) (x : ℕ) {r : Kernel} → release L k x ≡ some r → Steady k r
unfolding release get_task Stored.release Task.release throw_away
release-Steady L k x h = record {
  stays = record {
    in_task = λ y. ground (arith, h);
    task = λ y. ground (arith, h);
    in_scheduler = λ i. ground (arith, h);
    lists = λ i. ground (arith, h);
    terminals = λ p e. ground (arith, h, e);
  };
  holds = λ i. ground (arith, h);
  holding = λ y. ground (arith, h);
  killed = λ y d. ground (arith, h, d);
}

-- Between system calls, each CPU runs a thread that is outside of scopes.
abbrev pub Calm : Kernel → Type 0
Calm k = IsSettled k × ((c : ℕ) → IsOutside k c)

pub Orderly-Calm : {k k' : Kernel} → Orderly k k' → Calm k → Calm k'
Orderly-Calm s (v, o) =
    (Keeps-IsSettled s.keeps v, λ c x e. ground (arith, s.safe.current c, o c x, s.keeps.holding x))

module _ (L : LinkedList Garbage) (P : LinkedList ℕ) where
  Steady-IsStable : IsStable L P Steady
  Steady-IsStable = record {
    same = Steady-same;
    trans = Steady-trans;
    retains = retain-Steady;
    releases = release-Steady L;
    claims = λ k x. Steady-eq k (claimed k x) refl refl refl refl;
    retires = λ k cpu th. Steady-eq k (retired P k cpu th) refl refl refl refl;
    sets = λ k cpu o. Steady-eq k (set_current k cpu o) refl refl refl refl;
  }

  -- The thread that the CPU turns to has not been killed.
  abbrev Alive : ℕ → Kernel × Outcome → Type 0
  Alive cpu r = (x : ℕ) → r.0.current cpu ≡ some x → (r.0.threads x).killed ≡ false

  pick-Alive :
      (k : Kernel) (cpu now : ℕ) (scale : ℕ → ℕ)
      → Inv k
      → k.current cpu ≡ none
      → Returns (find_next L k now k.run_queue >>= λ r. resume L P r.0 cpu scale r.1) (Alive cpu)
  unfolding resume get_task
  pick-Alive k cpu now scale v e =
      rw (find_next-first L k now k.run_queue (joined-IsListed k v k.run_queue v.joined))
        (elim (Option-cases (first (is_eligible k now) k.run_queue)) [
          | inl q ↦ rw q (λ x h. ground (arith, e))
          | inr (y, q) ↦
              let (h, fit) = occurrences-first (is_eligible k now) k.run_queue y q in
              let k' = set_current (claimed (retained k y) y) cpu (some y) in
              subst (λ o. Returns o (Alive cpu)) {x = some (k', resumes y (scale jiffy_us))}
                (ground
                  (arith, All-at (λ z. (k.threads z).in_task ≡ true) y k.run_queue v.joined h))
                (λ x s. ground arith)
        ])

  switch-Alive :
      (k : Kernel) (cpu now : ℕ) (scale : ℕ → ℕ)
      → Inv k
      → Returns (switch L P k cpu now scale) (Alive cpu)
  unfolding switch
  switch-Alive k cpu now scale v =
      Returns->>= (λ k'. Inv k' × (k'.current cpu ≡ none)) (Alive cpu) (resign_current L P k cpu) _
        (resign_current-Inv L P k cpu v) (λ k' w. pick-Alive k' cpu now scale w.0 w.1)

  -- A switch after which that is so, where it was so but for the thread that is switched from.
  pub switch-Calm :
      (k : Kernel) (cpu now : ℕ) (scale : ℕ → ℕ)
      → Inv k
      → IsSettled k
      → ((c : ℕ) → c ≢ cpu → IsOutside k c)
      → Returns (switch L P k cpu now scale) (λ r. Calm r.0)
  switch-Calm k cpu now scale v w o =
      Returns-mono (λ r. (Elsewhere L P k cpu r × Alive cpu r) × Steady k r.0) (λ r. Calm r.0)
        (switch L P k cpu now scale)
        (Returns-both _ _ (switch L P k cpu now scale)
          (Returns-both _ _ (switch L P k cpu now scale) (switch-Others L P k cpu now scale v)
            (switch-Alive k cpu now scale v))
          (Returns-result (Alive cpu) (λ r. Steady k r.0) (switch L P k cpu now scale)
            (switch-Alive k cpu now scale v)
            (λ r e. switch-IsStable L P Steady Steady-IsStable k cpu now scale r e)))
        (λ r ((others, alive), s).
          let settled = Keeps-IsSettled (Steady-Keeps s) w in
          (
            settled,
            λ c x e. elim (Bool-cases (cpu == c)) [
              | inl q ↦ ground (arith, alive x, settled.left x, e)
              | inr q ↦ ground (arith, others c, o c, s.holding x, e, o c (ground arith) x)
            ],
          ))
