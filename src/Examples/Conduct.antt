-- ===== src/Examples/Conduct.antt =====
-- The CPUs with their system calls: instances of the theorems, and tests.
use alux.Prelude.{refl, some, true, false, [], ◌∷◌, Returns, occurrences, arith}
use alux.Memory.System as whole
use alux.Memory.System.{World, faults}
use alux.Memory.Safety.{IsWhole, occur-IsWhole}
use alux.X64.Program.{x64_map}
use alux.Examples.Faults.{fresh, address, fresh-IsPlaced}
use alux.Syscalls.Calls.{handle}
use alux.Syscalls.Conduct.{handle-IsHarmless}
use alux.Syscalls.Handler.{Syscall}
use alux.Syscalls.Harmless.{IsHarmless}
use alux.Syscalls.Requests.{IsOrderly}
use alux.Syscalls.Safety.{event-IsOrderly}
use alux.Syscalls.System.{calls, perform}
use alux.Tasks.Inside.{IsCalling}
use alux.Examples.Calls.{request}
use alux.Examples.Lists.{links, objects}
use alux.Examples.Machines.{one_runs, one_runs-IsSound}
use alux.Examples.Maps.{sevens}
use alux.Examples.Printing.{address-Belongs}
use alux.Examples.Scheduling.{two_threads, two_threads-Inv}

five-IsCalling : IsCalling two_threads 5
five-IsCalling = record { joined = refl; outside = refl; scheduled = refl; small = omega arith }

-- Thread 5 launches a thread on CPU 0.
handle-IsHarmless_example :
    Returns
      (handle objects links sevens request (record { kernel = two_threads; critical = true }) 0 22)
      (IsHarmless (record { kernel = two_threads; critical = true }) 5 false)
unfolding occurrences
handle-IsHarmless_example =
    handle-IsHarmless objects links sevens request
      (record { kernel = two_threads; critical = true }) 0 5 refl two_threads-Inv refl
      five-IsCalling (some Syscall.launch_thread) 22 (λ e. absurd (cc))
      ((7, 40 ∷ 5 ∷ [], refl), refl) refl

one_runs-IsOrderly : IsOrderly one_runs
unfolding occurrences
one_runs-IsOrderly = record {
  sound = one_runs-IsSound;
  calm = (
    record {
      placed = record {
        scheduled = λ x h. ground arith;
        listed = λ i x h. ground arith;
        terminals = λ p. refl;
      };
      unheld = λ i h. ground arith;
      left = λ x h. ground (arith, h);
    },
    λ c x e. ground (arith, e),
  );
}

-- Thread 5 exits on CPU 0.
event-IsOrderly_example :
    Returns (perform objects links sevens (λ us. us) one_runs (calls 0 7 request 20)) IsOrderly
event-IsOrderly_example =
    event-IsOrderly objects links sevens (λ us. us) one_runs (calls 0 7 request 20)
      one_runs-IsOrderly
      (
        some Syscall.exit_thread,
        record { running = tt; room = λ e. absurd cc; served = λ e. absurd cc; is_number = refl },
      )

-- Thread 5 has a write fault in its program on CPU 0.
abbrev programmed : World x64_map
programmed = record { machine = one_runs; maps = λ task. some fresh }

occur-IsWhole_example :
    Returns
      (whole.perform x64_map objects links sevens
        (λ us. us)
        programmed
        (faults 0 7 address true (some 0x9000)))
      (IsWhole x64_map)
occur-IsWhole_example =
    occur-IsWhole x64_map objects links sevens (λ us. us) programmed
      (faults 0 7 address true (some 0x9000))
      (record { orderly = one_runs-IsOrderly; ready = λ task. fresh-IsPlaced })
      (record { running = tt; within = λ th e. address-Belongs; frame = 0x9000; given = refl })
