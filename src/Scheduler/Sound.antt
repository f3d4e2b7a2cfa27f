-- ===== src/Scheduler/Sound.antt =====
-- The CPUs under kernel/src/scheduler/rr-scheduler.cpp, whatever happens on each.
use alux.Prelude.{
  ℕ, ◌≡◌, ◌≢◌, refl, inl, inr, subst, true, Option-cases, Option, none, some, LinkedList, All-at,
  Returns, Returns->>=, Returns-mono, Returns-both, occurrences-first, first, arith, ◌>>=◌, ◌==◌,
  Bool-cases, update,
}
use alux.Kernel.{Kernel, Garbage}
use alux.Threads.Counts.{release, kill}
use alux.Threads.Access.{get_task, get_scheduler, get_task_scheduler}
use alux.Threads.Exit.{exit_current}
use alux.Threads.Sleep.{arm_timeout}
use alux.Scheduler.Switch.{
  Outcome, resumes, waits, find_next, resign_current, retired, claimed, set_current, switch, resume,
  yield_thread, set_timeout, jiffy_us,
}
use alux.Scheduler.Selection.{is_eligible, retained, find_next-first}
use alux.Scheduler.Exclusion.{
  Inv, Agrees, Frame, release-Frame, joined-IsListed, switch-Inv, resign_current-Inv,
}
use alux.Scheduler.Exits.{kill-Inv, armed-Inv}
use alux.Scheduler.Timer.{
  Machine, Step, starts, fires, yields, exits, times_out, kills, clears, fire, perform, goes_on,
}

-- The other CPUs run what they ran.
abbrev Others : Kernel → ℕ → Kernel → Type 0
Others k cpu k' = (c : ℕ) → c ≢ cpu → k'.current c ≡ k.current c

-- What the CPU does, and the thread that is current on it.
abbrev pub Matches : Option Outcome → Option ℕ → Type 0
Matches none current = current ≡ none
Matches (some (resumes th t)) current = current ≡ some th
Matches (some (waits t)) current = current ≡ none

-- The invariant of the scheduler, and every CPU does what its kernel says.
pub record IsSound (m : Machine) : Type 0 where
  pub scheduler : Inv m.kernel
  pub agrees : (c : ℕ) → Matches (m.activity c) (m.kernel.current c)

abbrev pub IsRunning : Option Outcome → Type 0
IsRunning none = ⊥
IsRunning (some (resumes th t)) = Unit
IsRunning (some (waits t)) = ⊥

-- A CPU is started once, before its timer fires, only the thread that a CPU runs makes calls on it,
-- and a thread exits while its task is in the scheduler.
abbrev pub Allowed : Machine → Step → Type 0
Allowed m (starts cpu now) = m.activity cpu ≡ none
Allowed m (fires cpu now) = m.activity cpu ≢ none
Allowed m (yields cpu now) = IsRunning (m.activity cpu)
Allowed m (exits cpu now) =
    IsRunning (m.activity cpu)
    × ((th : ℕ)
        → m.kernel.current cpu ≡ some th
        → (m.kernel.tasks (m.kernel.threads th).task).in_scheduler ≡ true)
Allowed m (times_out cpu deadline now) = IsRunning (m.activity cpu)
Allowed m (kills th) = Unit
Allowed m (clears th) = Unit

pub running_thread :
    (m : Machine) (cpu : ℕ)
    → IsSound m
    → IsRunning (m.activity cpu)
    → (th : ℕ) × (m.kernel.current cpu ≡ some th)
running_thread m cpu v h = elim (Option-cases (m.activity cpu)) [
  | inl e ↦ absurd (rw e at h)
  | inr (resumes th t, e) ↦ let q = v.agrees cpu in (th, rw e at q)
  | inr (waits t, e) ↦ absurd (rw e at h)
]

Agrees-Matches :
    (k : Kernel) (cpu timeout : ℕ) (o : Outcome)
    → Agrees k cpu timeout o
    → Matches (some o) (k.current cpu)
Agrees-Matches k cpu timeout (resumes th t) w = w.0
Agrees-Matches k cpu timeout (waits t) w = w.0

module _ (L : LinkedList Garbage) (P : LinkedList ℕ) where
  resign_current-Others :
      (k : Kernel) (cpu : ℕ) → Inv k → Returns (resign_current L P k cpu) (Others k cpu)
  unfolding resign_current
  resign_current-Others k cpu v = elim (Option-cases (k.current cpu)) [
    | inl e ↦ rw (e, resign_current) (λ c n. refl)
    | inr (th, e) ↦
        let k1 = retired P k cpu th in
        subst (λ o. Returns o (Others k cpu)) (ground arith)
          (Returns-mono (Frame k1) (Others k cpu) (release L k1 th)
            (release-Frame L k1 th (All-at _ th k.run_queue v.joined (v.enqueued cpu th e)))
            λ k' f c n. ground (arith, f.current c))
  ]

  abbrev pub Elsewhere : Kernel → ℕ → Kernel × Outcome → Type 0
  Elsewhere k cpu r = Others k cpu r.0

  pick-Others :
      (k : Kernel) (cpu now : ℕ) (scale : ℕ → ℕ)
      → Inv k
      → Returns
          (find_next L k now k.run_queue >>= λ r. resume L P r.0 cpu scale r.1)
          (Elsewhere k cpu)
  unfolding resume get_task
  pick-Others k cpu now scale v =
      rw (find_next-first L k now k.run_queue (joined-IsListed k v k.run_queue v.joined))
        (elim (Option-cases (first (is_eligible k now) k.run_queue)) [
          | inl q ↦ rw q (λ c n. refl)
          | inr (y, q) ↦
              let (h, fit) = occurrences-first (is_eligible k now) k.run_queue y q in
              let k' = set_current (claimed (retained k y) y) cpu (some y) in
              subst (λ o. Returns o (Elsewhere k cpu)) {x = some (k', resumes y (scale jiffy_us))}
                (ground
                  (arith, All-at (λ z. (k.threads z).in_task ≡ true) y k.run_queue v.joined h))
                (λ c n. ground arith)
        ])

  pub switch-Others :
      (k : Kernel) (cpu now : ℕ) (scale : ℕ → ℕ)
      → Inv k
      → Returns (switch L P k cpu now scale) (Elsewhere k cpu)
  unfolding switch
  switch-Others k cpu now scale v =
      Returns->>= (λ k'. (Inv k' × (k'.current cpu ≡ none)) × Others k cpu k') (Elsewhere k cpu)
        (resign_current L P k cpu) _
        (Returns-both _ _ (resign_current L P k cpu) (resign_current-Inv L P k cpu v)
          (resign_current-Others k cpu v))
        (λ k' w.
          Returns-mono (Elsewhere k' cpu) (Elsewhere k cpu) _ (pick-Others k' cpu now scale w.0.0)
            (λ s o c n. ground (arith, o c n, w.1 c n)))

  goes_on-IsSound :
      (m : Machine) (cpu : ℕ) (scale : ℕ → ℕ) (r : Kernel × Outcome)
      → IsSound m
      → Inv r.0 × Agrees r.0 cpu (scale jiffy_us) r.1
      → Others m.kernel cpu r.0
      → IsSound (goes_on m cpu r)
  goes_on-IsSound m cpu scale (k, o) v w other = record {
    scheduler = w.0;
    agrees = λ c. elim (Bool-cases (cpu == c)) [
      | inl e ↦
          let same : c ≡ cpu = ground arith in
          let mine : update m.activity cpu (some o) c ≡ some o = ground arith in
          rw (mine, same) (Agrees-Matches k cpu (scale jiffy_us) o w.1)
      | inr e ↦
          let theirs : update m.activity cpu (some o) c ≡ m.activity c = ground arith in
          rw (theirs, other c (ground arith)) (v.agrees c)
    ];
  }

  -- A switch on a kernel in which the CPUs run what they ran.
  pub switched-IsSound :
      (m : Machine) (k : Kernel) (cpu now : ℕ) (scale : ℕ → ℕ)
      → IsSound m
      → Inv k
      → ((c : ℕ) → k.current c ≡ m.kernel.current c)
      → Returns (switch L P k cpu now scale >>= λ r. some (goes_on m cpu r)) IsSound
  switched-IsSound m k cpu now scale v w same =
      Returns->>= (λ r. (Inv r.0 × Agrees r.0 cpu (scale jiffy_us) r.1) × Others k cpu r.0) IsSound
        (switch L P k cpu now scale) _
        (Returns-both _ _ (switch L P k cpu now scale) (switch-Inv L P k cpu now scale w)
          (switch-Others k cpu now scale w))
        (λ r q. goes_on-IsSound m cpu scale r v q.0 (λ c n. ground (arith, q.1 c n, same c)))

  -- From a state with the invariant of the scheduler in which every CPU runs the thread that is
  -- current on it, or waits with none, every step that is allowed returns and leads to such a state.
  -- A step is the start of a CPU, its timer, a call of `Yield`, `SetTimeout` or `ExitCurrent` on it,
  -- a killed thread or a cleared timeout; so no assertion fails in any order of them, that of the
  -- timer's handler that there is a current thread included, and no thread is on two CPUs.
  pub perform-IsSound :
      (scale : ℕ → ℕ) (m : Machine) (s : Step)
      → IsSound m
      → Allowed m s
      → Returns (perform L P scale m s) IsSound
  unfolding fire yield_thread exit_current set_timeout kill arm_timeout get_task_scheduler get_task
      get_scheduler
  perform-IsSound scale m (starts cpu now) v h =
      switched-IsSound m m.kernel cpu now scale v v.scheduler (λ c. refl)
  perform-IsSound scale m (fires cpu now) v h = elim (Option-cases (m.activity cpu)) [
    | inl e ↦ absurd (h e)
    | inr (resumes th t, e) ↦
        let q = v.agrees cpu in
        let current : m.kernel.current cpu ≡ some th = rw e at q in
        rw (e, current) (switched-IsSound m m.kernel cpu now scale v v.scheduler (λ c. refl))
    | inr (waits t, e) ↦ rw e (switched-IsSound m m.kernel cpu now scale v v.scheduler (λ c. refl))
  ]
  perform-IsSound scale m (yields cpu now) v h =
      let (th, e) = running_thread m cpu v h in
      rw e (switched-IsSound m m.kernel cpu now scale v v.scheduler (λ c. refl))
  perform-IsSound scale m (exits cpu now) v (h, s) =
      let (th, e) = running_thread m cpu v h in
      let joined =
        All-at _ th m.kernel.run_queue v.scheduler.joined (v.scheduler.enqueued cpu th e) in
      let here : get_task_scheduler (kill m.kernel th) th ≡ some tt =
        ground (arith, joined, s th e) in
      rw (e, here)
        (switched-IsSound m (kill m.kernel th) cpu now scale v
          (kill-Inv L P m.kernel th v.scheduler) (λ c. refl))
  perform-IsSound scale m (times_out cpu deadline now) v h =
      let (th, e) = running_thread m cpu v h in
      rw e (
        switched-IsSound m (arm_timeout m.kernel th deadline) cpu now scale v
          (armed-Inv L P m.kernel th deadline v.scheduler) (λ c. refl))
  perform-IsSound scale m (kills th) v h = record {
    scheduler = kill-Inv L P m.kernel th v.scheduler;
    agrees = v.agrees;
  }
  perform-IsSound scale m (clears th) v h = record {
    scheduler = armed-Inv L P m.kernel th 0 v.scheduler;
    agrees = v.agrees;
  }
