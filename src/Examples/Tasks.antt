-- ===== src/Examples/Tasks.antt =====
-- Tasks and scopes: instances of the theorems, and tests.
use alux.Prelude.{[], ◌∷◌, occurrences, count, ◌≡◌, refl, true, false, some, Returns, arith, ◌>>=◌}
use alux.Tasks.Task
use alux.Tasks.Lifecycle.{
  World, World, unholds, kills, act, created, Reach, start, next, Inv, Reach-Inv,
}
use alux.Tasks.HoldScope.{Cpu, construct}
use alux.Tasks.Holding.{left_again, construct-destroy}
use alux.Tasks.Scopes as scoped
use alux.Tasks.Scopes.{enters, perform}
use alux.Tasks.Insiders.{IsExact}
use alux.Tasks.Held.{perform-IsExact}
use alux.Examples.Lists.{objects}
use alux.Kernel.{put_task}
use alux.Examples.Store.{running, user_task}

-- Created and held, then killed and unheld.
abbrev doomed : World
doomed = act (kills 0) (created 7)

reach_doomed : Reach 7 doomed
reach_doomed = next start (kills 0) (omega arith, λ e. absurd (omega arith))

reach_finished : Reach 7 (act unholds doomed)
unfolding act Task.new_task
reach_finished = next reach_doomed unholds (omega arith)

Reach-Inv_example : Inv (act unholds doomed)
Reach-Inv_example = Reach-Inv reach_finished

abbrev cpu : Cpu
cpu = record { kernel = running; critical = true }

construct-destroy_example : (construct cpu (some 5) >>= left_again objects) ≡ some cpu
construct-destroy_example = construct-destroy objects cpu 5 refl (omega arith) refl

-- The same CPU after the task was killed by another one.
abbrev killed_cpu : Cpu
killed_cpu = record {
  kernel = put_task running 0 (record user_task { kill_reason = 1 });
  critical = false;
}

-- A task that is killed while it is held is thrown away by the last `Unhold`.
thrown_at_unhold : (act unholds doomed).thrown ≡ 1
unfolding act Task.new_task
thrown_at_unhold = refl

-- Thread 5 runs outside of scopes.
abbrev outside : scoped.World
outside = record {
  kernel = running;
  scopes = λ x. [];
  critical = λ x. true;
  gone = λ x. false;
  others = λ i. (running.tasks i).hold_count;
}

outside-IsExact : IsExact (5 ∷ []) outside
unfolding occurrences count
outside-IsExact = record {
  listed = λ x e. ground arith;
  exact = λ i. ground arith;
  small = λ i. ground arith;
  marked = λ x g. ground arith;
  stacked = λ x. tt;
}

perform-IsExact_example : Returns (perform objects outside (enters 5)) (IsExact (5 ∷ []))
perform-IsExact_example =
    perform-IsExact objects (5 ∷ []) outside (enters 5) outside-IsExact (refl, refl, refl)
