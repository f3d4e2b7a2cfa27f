-- ===== src/Tasks/Scopes.antt =====
-- The threads of the kernel with the scopes of hold-scope.cpp that they have entered, and the kills
-- and holds of others in between.
use alux.Prelude.{ℕ, ◌-◌, Bool, true, Option, none, some, List, [], ◌∷◌, LinkedList, update, ◌>>=◌}
use alux.Kernel.{Kernel, Garbage}
use alux.Tasks.HoldScope.{
  Cpu, HoldScope, Entry, entered, exited, construct, destroy, exit_thread, exit_task,
}
use alux.Tasks.Stored
use alux.Threads.Counts

-- The scopes of each thread, the innermost first, whether it is in a critical section, and whether it
-- has exited; and of each task, how often something other than a scope holds it.
pub record World : Type 0 where
  pub kernel : Kernel
  pub scopes : ℕ → List HoldScope
  pub critical : ℕ → Bool
  pub gone : ℕ → Bool
  pub others : ℕ → ℕ

-- What a thread does to its scopes: `ExitThread` has no status. Whoever may does the rest.
pub data Call : Type 0 where
  enters leaves : (th : ℕ) → Call
  exits : (th : ℕ) → (status : Option ℕ) → Call
  kills : (task reason : ℕ) → Call
  kills_thread : (th : ℕ) → Call
  unholds : (task : ℕ) → Call

abbrev pub cpu_of : World → ℕ → Cpu
cpu_of w th = record { kernel = w.kernel; critical = w.critical th }

abbrev pub put_cpu : World → ℕ → List HoldScope → Cpu → World
put_cpu w th scopes s = record w {
  kernel = s.kernel;
  critical = update w.critical th s.critical;
  scopes = update w.scopes th scopes;
}

-- The thread does not come back.
abbrev pub lose : World → ℕ → Cpu → World
lose w th s = record (put_cpu w th [] s) { gone = update w.gone th true }

unfoldable pub enter : World → ℕ → Entry → World
enter w th (entered scope s) = put_cpu w th (scope ∷ w.scopes th) s
enter w th (exited s) = lose w th s

module _ (L : LinkedList Garbage) where
  unfoldable pub leave : World → ℕ → List HoldScope → Option World
  leave w th [] = none
  leave w th (scope ∷ rest) = some (put_cpu w th rest (destroy L scope (cpu_of w th)))

  unfoldable pub exit_from : World → ℕ → Option ℕ → List HoldScope → Option World
  exit_from w th status [] = none
  exit_from w th none (scope ∷ rest) = exit_thread L scope (cpu_of w th) >>= λ s. some (lose w th s)
  exit_from w th (some status) (scope ∷ rest) =
      exit_task L scope status (cpu_of w th) >>= λ s. some (lose w th s)

  abbrev pub perform : World → Call → Option World
  perform w (enters th) = construct (cpu_of w th) (some th) >>= λ e. some (enter w th e)
  perform w (leaves th) = leave w th (w.scopes th)
  perform w (exits th status) = exit_from w th status (w.scopes th)
  perform w (kills task reason) = some (record w { kernel = Stored.kill w.kernel task reason })
  perform w (kills_thread th) = some (record w { kernel = Counts.kill w.kernel th })
  perform w (unholds task) = some (record w {
    kernel = Stored.unhold L w.kernel task;
    others = update w.others task (w.others task - 1);
  })
