-- ===== src/Examples/Booting.antt =====
-- A boot: instances of the theorems, and tests.
use alux.Prelude.{
  Option, some, ◌>>=◌, ◌≡◌, ℕ, ◌+◌, ◌*◌, Bool, true, false, refl, All, Returns, List, [], ◌∷◌,
  arith,
}
use alux.Boot.Main.{Started, alux_main}
use alux.Memory.System.{World, Occurrence, happens, perform, play}
use alux.Memory.Safety.{IsWhole, Permits}
use alux.Boot.Program.{program, IsRunning, alux_main-IsRunning}
use alux.X64.Image.{new_executable, Executable, new_image}
use alux.X64.Program.{Belongs, x64_map}
use alux.X64.Sectors.{start_addr}
use alux.Kernel.{empty_kernel}
use alux.Boot.Start.{construct, start_user, Fresh, boot, run}
use alux.Boot.Lasting.{IsBlank, world_of, alux_main_lasts}
use alux.Syscalls.System.{does, calls}
use alux.Syscalls.Requests.{MayCall}
use alux.Syscalls.Handler.{Syscall}
use alux.Examples.Calls.{request}
use alux.Scheduler.Timer.{Step}
use alux.Scheduler.Switch.{Outcome, switch, find_next}
use alux.Tasks.Life as task_life
use alux.Tasks.Stored
use alux.Threads.Counts.{retain, release}
use alux.Threads.Life.{create_thread, add_to_task, add_to_scheduler}
use alux.Boot.Running.{IsEmpty, boot_serves}
use alux.Scheduler.Exclusion.{Inv}
use alux.Scheduler.Fairness.{Served}
use alux.Examples.Maps.{sevens}
use alux.Examples.Lists.{links, objects}

abbrev collector : Fresh
collector = record { task = 0; thread = 10; identifier = 0; deadline = 0 }

abbrev user : Fresh
user = record { task = 1; thread = 11; identifier = 0; deadline = 0 }

empty_kernel-IsEmpty : IsEmpty empty_kernel
empty_kernel-IsEmpty = record {
  no_threads = refl;
  no_current = λ c. refl;
  words = λ x. omega arith;
  task_words = λ i. omega arith;
}

-- The CPU switches twice: to the collector's thread, then to the user's.
abbrev two_switches : List (ℕ × ℕ)
two_switches = (0, 1) ∷ (0, 2) ∷ []

boot_serves_example : Returns (boot objects links sevens sevens empty_kernel collector user) (λ r.
    Returns (run objects links r (λ us. us * 2) two_switches) Inv
    × Served objects links (λ us. us * 2) r 11 two_switches)
boot_serves_example =
    boot_serves objects links sevens sevens empty_kernel collector user 7 7 7 7 (0 ∷ [])
      (1 ∷ 0 ∷ []) (10 ∷ []) (11 ∷ []) (λ us. us * 2) two_switches empty_kernel-IsEmpty
      (λ e. omega (arith, e)) (λ e. omega (arith, e)) refl refl refl refl
      (omega arith, (omega arith, tt)) (omega arith)

-- A program of 20 KB.
abbrev small_program : Executable
small_program = program 0x1234 0x5000

-- A read, then a write to the same page.
abbrev two_faults : List (ℕ × Bool × ℕ)
two_faults = (start_addr + 0x1234, false, 0x9000) ∷ (start_addr + 0x1234, true, 0xa000) ∷ []

two_faults-inside : All (λ f. Belongs small_program f.0) two_faults
unfolding new_image
two_faults-inside = ((omega arith, omega arith), ((omega arith, omega arith), tt))

alux_main-IsRunning_example :
    Returns (alux_main objects links sevens sevens 0x1234 0x5000 70 empty_kernel collector user) (
      IsRunning objects links small_program
        (new_image 0x1234 0x5000).kernel_end
        11
        (λ us. us * 2)
        two_switches
        two_faults)
alux_main-IsRunning_example =
    alux_main-IsRunning objects links sevens sevens 0x1234 0x5000 70 empty_kernel collector user 7 7
      7 7 (0 ∷ []) (1 ∷ 0 ∷ []) (10 ∷ []) (11 ∷ []) (λ us. us * 2) two_switches two_faults
      (omega arith) (omega arith) two_faults-inside empty_kernel-IsEmpty (λ e. omega (arith, e))
      (λ e. omega (arith, e)) refl refl refl refl

empty_kernel-IsBlank : IsBlank empty_kernel
empty_kernel-IsBlank = record {
  vacant = empty_kernel-IsEmpty;
  unjoined = λ x. refl;
  unmarked = λ x. refl;
  unscheduled = λ i. refl;
  no_lists = λ i. refl;
  no_terminals = λ p. refl;
}

-- CPU 0 is started; the collector's thread on it sleeps until it is woken.
abbrev two_occurrences : List Occurrence
two_occurrences = happens (does (Step.starts 0 1)) ∷ happens (calls 0 5 request 24) ∷ []

abbrev main : Option Started
main = alux_main objects links sevens sevens 0x1234 0x5000 70 empty_kernel collector user

collector_runs :
    (main >>= λ r.
    perform x64_map objects links sevens
      (λ us. us)
      (world_of user r)
      (happens (does (Step.starts 0 1)))
    >>= λ w. w.machine.activity 0)
    ≡ some (Outcome.resumes 10 50000)
unfolding alux_main construct start_user new_executable task_life.add_to_scheduler create_thread
    add_to_task add_to_scheduler release Stored.retain Stored.unhold retain switch find_next
    Stored.release new_image
collector_runs = refl

two_occurrences-Permits :
    (r : Started)
    → main ≡ some r
    → Permits x64_map objects links sevens (λ us. us) (world_of user r) two_occurrences
two_occurrences-Permits r b = (refl, λ w p. ((some Syscall.sleep_infinite, sleeps w p), λ w' q. tt))
  where
    sleeps :
        (w : World x64_map)
        → perform x64_map objects links sevens
            (λ us. us)
            (world_of user r)
            (happens (does (Step.starts 0 1)))
          ≡ some w
        → MayCall sevens w.machine 0 request (some Syscall.sleep_infinite) 24
    sleeps w p =
        let started = collector_runs in
        let runs : w.machine.activity 0 ≡ some (Outcome.resumes 10 50000) = rw (b, p) at started in
        record {
          running = rw runs tt;
          room = λ e. absurd cc;
          served = λ e. absurd cc;
          is_number = refl;
        }

alux_main_lasts_example :
    Returns
      (main >>= λ r. play x64_map objects links sevens (λ us. us) (world_of user r) two_occurrences)
      (IsWhole x64_map)
alux_main_lasts_example =
    alux_main_lasts objects links sevens sevens 0x1234 0x5000 70 empty_kernel collector user 7 7 7 7
      (0 ∷ []) (1 ∷ 0 ∷ []) (10 ∷ []) (11 ∷ []) (λ us. us) two_occurrences (omega arith)
      empty_kernel-IsBlank (λ e. omega (arith, e)) (λ e. omega (arith, e)) refl refl refl refl
      two_occurrences-Permits
