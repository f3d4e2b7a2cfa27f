-- ===== src/Scheduler/Spares.antt =====
-- What a switch of threads leaves alone: who sleeps, and which deadlines have been cleared.
use alux.Prelude.{Returns, Returns-result, ℕ, ◌≡◌, true, refl, Bool, some, LinkedList, arith}
use alux.Kernel.{Kernel, Garbage}
use alux.Tasks.Task
use alux.Tasks.Stored
use alux.Scheduler.Collector.{throw_away}
use alux.Threads.Access.{get_task}
use alux.Threads.Counts.{retain, release}
use alux.Scheduler.Exclusion.{Inv, switch-Inv}
use alux.Scheduler.Stable.{IsStable, switch-IsStable}
use alux.Scheduler.Switch.{switch}

-- A step that leaves the `SleepState` of every thread alone, and after which the deadline of a
-- sleeping thread is still 0 if it was 0.
pub record Spares (k k' : Kernel) : Type 0 where
  pub sleep_state : (x : ℕ) → (k'.threads x).sleep_state ≡ (k.threads x).sleep_state
  pub cleared :
      (x : ℕ)
      → (k.threads x).sleep_state.sleeping ≡ true
      → (k.objs x).deadline ≡ 0
      → (k'.objs x).deadline ≡ 0

same : (k : Kernel) → Spares k k
same k = record { sleep_state = λ x. refl; cleared = λ x s h. h }

trans : {a b c : Kernel} → Spares a b → Spares b c → Spares a c
trans s t = record {
  sleep_state = λ x. ground (arith, s.sleep_state x, t.sleep_state x);
  cleared = λ x a h. t.cleared x (ground (arith, s.sleep_state x)) (s.cleared x a h);
}

retain-Spares : (k : Kernel) (x : ℕ) {r : Kernel × Bool} → retain k x ≡ some r → Spares k r.0
unfolding retain Stored.retain Task.retain get_task
retain-Spares k x h = record { sleep_state = λ y. ground arith; cleared = λ y s c. ground arith }

release-Spares :
    (L : LinkedList Garbage) (k : Kernel) (x : ℕ) {r : Kernel} → release L k x ≡ some r → Spares k r
unfolding release Stored.release throw_away Task.release get_task
release-Spares L k x h = record { sleep_state = λ y. ground arith; cleared = λ y s c. ground arith }

module _ (L : LinkedList Garbage) (P : LinkedList ℕ) where
  Spares-IsStable : IsStable L P Spares
  Spares-IsStable = record {
    same = same;
    trans = trans;
    retains = retain-Spares;
    releases = release-Spares L;
    claims = λ k x. record { sleep_state = λ y. refl; cleared = λ y s c. ground arith };
    retires = λ k cpu th. record { sleep_state = λ y. refl; cleared = λ y s c. ground arith };
    sets = λ k cpu o. record { sleep_state = λ y. refl; cleared = λ y s c. c };
  }

  -- From a state with the invariant of the scheduler, `Switch` on any CPU at any time returns; it
  -- changes the `SleepState` of no thread, and the deadline of a sleeping thread that is 0 stays 0.
  pub switch-Spares :
      (k : Kernel) (cpu now : ℕ) (scale : ℕ → ℕ)
      → Inv k
      → Returns (switch L P k cpu now scale) (λ r. Spares k r.0)
  switch-Spares k cpu now scale v =
      Returns-result _ (λ r. Spares k r.0) (switch L P k cpu now scale)
        (switch-Inv L P k cpu now scale v)
        (switch-IsStable L P Spares Spares-IsStable k cpu now scale)
