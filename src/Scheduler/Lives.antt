-- ===== src/Scheduler/Lives.antt =====
-- Switches of threads kill nothing and hold nothing: what a HoldScope asks of a thread stays.
use alux.Prelude.{
  ℕ, ◌≡◌, refl, ◌∙◌, Bool, List, [], ◌∷◌, some, subst, >>=-eq-some, LinkedList, arith,
}
use alux.Boot.Start.{run}
use alux.Kernel.{Kernel, Garbage}
use alux.Scheduler.Collector.{throw_away}
use alux.Scheduler.Stable.{IsStable, switch-IsStable}
use alux.Scheduler.Switch.{retired, claimed, set_current, switch}
use alux.Tasks.Holding.{IsAlive}
use alux.Tasks.Stored
use alux.Tasks.Task
use alux.Threads.Access.{get_task}
use alux.Threads.Counts.{retain, release}

pub record SameLives (k k' : Kernel) : Type 0 where
  pub in_task : (x : ℕ) → (k'.threads x).in_task ≡ (k.threads x).in_task
  pub task : (x : ℕ) → (k'.threads x).task ≡ (k.threads x).task
  pub holding : (x : ℕ) → (k'.threads x).holding_task ≡ (k.threads x).holding_task
  pub holds : (i : ℕ) → (k'.tasks i).hold_count ≡ (k.tasks i).hold_count
  pub killed : (i : ℕ) → (k'.tasks i).kill_reason ≡ (k.tasks i).kill_reason

retain-SameLives : (k : Kernel) (x : ℕ) {r : Kernel × Bool} → retain k x ≡ some r → SameLives k r.0
unfolding retain get_task Stored.retain Task.retain
retain-SameLives k x h = record {
  in_task = λ y. ground (arith, h);
  task = λ y. ground (arith, h);
  holding = λ y. ground (arith, h);
  holds = λ i. ground (arith, h);
  killed = λ i. ground (arith, h);
}

release-SameLives :
    (L : LinkedList Garbage) (k : Kernel) (x : ℕ) {r : Kernel}
    → release L k x ≡ some r
    → SameLives k r
unfolding release get_task Stored.release Task.release throw_away
release-SameLives L k x h = record {
  in_task = λ y. ground (arith, h);
  task = λ y. ground (arith, h);
  holding = λ y. ground (arith, h);
  holds = λ i. ground (arith, h);
  killed = λ i. ground (arith, h);
}

SameLives-trans : {a b c : Kernel} → SameLives a b → SameLives b c → SameLives a c
SameLives-trans s t = record {
  in_task = λ x. t.in_task x ∙ s.in_task x;
  task = λ x. t.task x ∙ s.task x;
  holding = λ x. t.holding x ∙ s.holding x;
  holds = λ i. t.holds i ∙ s.holds i;
  killed = λ i. t.killed i ∙ s.killed i;
}

-- A step that leaves threads and tasks alone
SameLives-eq : (k k' : Kernel) → k'.threads ≡ k.threads → k'.tasks ≡ k.tasks → SameLives k k'
SameLives-eq k k' e e' = record {
  in_task = λ x. rw e refl;
  task = λ x. rw e refl;
  holding = λ x. rw e refl;
  holds = λ i. rw e' refl;
  killed = λ i. rw e' refl;
}

module _ (L : LinkedList Garbage) (P : LinkedList ℕ) where
  SameLives-IsStable : IsStable L P SameLives
  SameLives-IsStable = record {
    same = λ k. SameLives-eq k k refl refl;
    trans = SameLives-trans;
    retains = retain-SameLives;
    releases = release-SameLives L;
    claims = λ k x. SameLives-eq k (claimed k x) refl refl;
    retires = λ k cpu th. SameLives-eq k (retired P k cpu th) refl refl;
    sets = λ k cpu o. SameLives-eq k (set_current k cpu o) refl refl;
  }

  pub run-SameLives :
      (k : Kernel) (scale : ℕ → ℕ) (cpus : List (ℕ × ℕ)) {k' : Kernel}
      → run L P k scale cpus ≡ some k'
      → SameLives k k'
  unfolding run
  run-SameLives k scale [] {k'} h =
      subst (SameLives k) (ground (arith, h)) (SameLives-eq k k refl refl)
  run-SameLives k scale ((cpu, now) ∷ cpus) {k'} h =
      let (r, e, f) = >>=-eq-some (switch L P k cpu now scale) _ h in
      SameLives-trans (switch-IsStable L P SameLives SameLives-IsStable k cpu now scale r e)
        (run-SameLives r.0 scale cpus f)

-- A live thread, or one that holds its task, is that after any switches.
pub SameLives-IsAlive :
    {k k' : Kernel} {b b' : Bool} (th : ℕ)
    → SameLives k k'
    → IsAlive (record { kernel = k; critical = b }) th
    → IsAlive (record { kernel = k'; critical = b' }) th
SameLives-IsAlive {k} {k'} th s v =
    let same = s.task th in
    let home = (k.threads th).task in
    record {
      joined = s.in_task th ∙ v.joined;
      small = rw (same, s.holds home) v.small;
      alive = rw (same, s.killed home, s.holding th) v.alive;
    }
