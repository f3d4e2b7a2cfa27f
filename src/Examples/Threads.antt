-- ===== src/Examples/Threads.antt =====
-- Threads and their references: instances of the theorems, and tests.
use alux.Prelude.{ℕ, refl, true, Returns, occurrences, sum_by, arith}
use alux.Kernel.{Kernel, put_thread}
use alux.Threads.References.{Counted}
use alux.Threads.Traces.{perform, deallocs, perform-Counted}
use alux.Examples.Maps.{sevens}
use alux.Examples.Lists.{links, objects}
use alux.Examples.Store.{running}

abbrev nobody : ℕ → ℕ
nobody task = 0

running-Counted : Counted nobody running
unfolding occurrences sum_by
running-Counted = record {
  listed = λ x e. ground arith;
  own = λ task x e. ground arith;
  exact = λ task. ground arith;
}

-- The thread was killed and its last release has passed: it accounts for one reference.
abbrev dying : Kernel
dying = put_thread running 5 (record (running.threads 5) { retain_count = 0; killed = true })

dying-Counted : Counted nobody dying
unfolding occurrences sum_by
dying-Counted = record {
  listed = λ x e. ground arith;
  own = λ task x e. ground arith;
  exact = λ task. ground arith;
}

perform-Counted_example : Returns (perform objects links sevens dying (deallocs 5)) (Counted nobody)
perform-Counted_example = perform-Counted objects links sevens (deallocs 5) dying-Counted (record {
  joined = refl;
  killed = refl;
  idle = refl;
  scheduled = refl;
  word = omega arith;
  ports = tt;
})
