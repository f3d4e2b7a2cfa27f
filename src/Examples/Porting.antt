-- ===== src/Examples/Porting.antt =====
-- Ports of threads: instances of the theorems, and tests.
use alux.Prelude.{Returns, occurrences, arith}
use alux.Syscalls.Porting.{Call, perform, perform-IsTidy}
use alux.Threads.Pending.{IsTidy, IsUnused}
use alux.Examples.Lists.{links, objects}
use alux.Examples.Maps.{sevens}
use alux.Examples.Store.{running}

running-IsTidy : IsTidy running
unfolding occurrences
running-IsTidy = record {
  pending = λ p th. ground arith;
  own = λ p th d. ground arith;
  once = λ p th. ground arith;
}

running-IsUnused : IsUnused running 20
unfolding occurrences
running-IsUnused = record { unlisted = λ th. ground arith; unheard = λ th. ground arith }

-- Thread 5 makes a port at address 20.
perform-IsTidy_example : Returns (perform objects links sevens running (Call.creates 5 20)) IsTidy
perform-IsTidy_example =
    perform-IsTidy objects links sevens running (Call.creates 5 20) running-IsTidy running-IsUnused
