-- ===== src/Boot/Lasting.antt =====
-- From `AluxMainX64` of kernel/src/arch/x64/main.cpp on: the steps of the whole machine.
use alux.Prelude.{
  refl, update, ◌<◌, ◌^◌, ℕ, ◌≡◌, ◌≢◌, false, none, some, List, [], LinkedList, IdMap, Returns,
  occurrences, arith, ◌>>=◌,
}
use alux.Kernel.{Kernel, Garbage}
use alux.Boot.Running.{IsEmpty, boot-booted, booted, booted-Inv}
use alux.Boot.Start.{Fresh}
use alux.Boot.Main.{Started, alux_main}
use alux.Boot.Program.{program, started, alux_main-boot, image-IsLoadable, new_user-IsReady}
use alux.Memory.System.{World, Occurrence, play}
use alux.Memory.Safety.{IsWhole, Permits, play-IsWhole, updated-IsMapReady}
use alux.X64.Program.{x64_map}
use alux.Scheduler.Timer.{Machine}
use alux.Syscalls.Requests.{IsOrderly}
use alux.Tasks.Steady.{IsSettled}
use alux.Tasks.Task.{new_task}
use alux.Threads.Counts.{new_thread}
use alux.Threads.Starting.{launched}

-- The store before the boot: there is nothing in it.
pub record IsBlank (k : Kernel) : Type 0 where
  pub vacant : IsEmpty k
  pub unjoined : (x : ℕ) → (k.threads x).in_task ≡ false
  pub unmarked : (x : ℕ) → (k.threads x).holding_task ≡ false
  pub unscheduled : (i : ℕ) → (k.tasks i).in_scheduler ≡ false
  pub no_lists : (i : ℕ) → k.thread_lists i ≡ []
  pub no_terminals : (p : ℕ) → (k.ports p).terminal ≡ none

-- The CPUs before `Run`
abbrev pub off : Kernel → Machine
off k = record { kernel = k; activity = λ c. none }

module _ (L : LinkedList Garbage) (P : LinkedList ℕ) (T M : IdMap) (k : Kernel) (c u : Fresh)
    (t1 t2 n1 n2 : ℕ) (ts1 ts2 ths1 ths2 : List ℕ) where
  abbrev begins : Kernel
  begins = booted L P T M k c u t1 t2 n1 n2 ts1 ts2 ths1 ths2

  booted-IsSettled :
      IsBlank k
      → c.task ≢ u.task
      → c.thread ≢ u.thread
      → M.add (k.thread_lists c.task) c.thread ≡ some (n1, ths1)
      → M.add (k.thread_lists u.task) u.thread ≡ some (n2, ths2)
      → IsSettled begins
  unfolding launched new_task new_thread occurrences
  booted-IsSettled v d d' e e' = record {
    placed = record {
      scheduled = λ x h. ground (arith, v.unjoined x, d, d');
      listed = λ i x h. ground (
        arith,
        v.no_lists i,
        M.occurrences-add (k.thread_lists c.task) c.thread n1 ths1 x e,
        M.occurrences-add (k.thread_lists u.task) u.thread n2 ths2 x e',
        v.no_lists c.task,
        v.no_lists u.task,
      );
      terminals = λ p. v.no_terminals p;
    };
    unheld = λ i h. ground (arith, v.unscheduled i);
    left = λ x h. ground (arith, v.unmarked x);
  }

  begins-IsOrderly :
      IsBlank k
      → c.task ≢ u.task
      → c.thread ≢ u.thread
      → M.add (k.thread_lists c.task) c.thread ≡ some (n1, ths1)
      → M.add (k.thread_lists u.task) u.thread ≡ some (n2, ths2)
      → IsOrderly (off begins)
  unfolding launched
  begins-IsOrderly v d d' e e' =
      let idle : (i : ℕ) → begins.current i ≡ none = v.vacant.no_current in
      record {
        sound = record {
          scheduler = booted-Inv L P T M k c u t1 t2 n1 n2 ts1 ts2 ths1 ths2 v.vacant d';
          agrees = idle;
        };
        calm = (booted-IsSettled v d d' e e', λ i x h. ground (arith, idle i));
      }

-- The CPUs and the first user task, as `AluxMainX64` calls `Run`
abbrev pub world_of : Fresh → Started → World x64_map
world_of u r = record {
  machine = off r.kernel;
  maps = update (λ i. none) u.task (some r.user_task.executable_map);
}

module _ (L : LinkedList Garbage) (P : LinkedList ℕ) (T M : IdMap) where
  -- The kernel never fails an assertion once it has been booted. From a store with nothing in it, where
  -- the list of the scheduler and those of the two tasks have an identifier left and the addresses of
  -- the new objects differ, `AluxMainX64` comes to the call of `Run`; and after it every sequence of
  -- steps of the CPUs, as starts, timers, timeouts and exits, of system calls by number of the threads
  -- on them, of ends of their sleeps and of page faults within their programs returns, where each may
  -- happen when its turn comes. What it leads to has the invariant of the whole machine.
  pub alux_main_lasts :
      (end_word size_word map : ℕ) (k : Kernel) (c u : Fresh) (t1 t2 n1 n2 : ℕ)
      (ts1 ts2 ths1 ths2 : List ℕ) (scale : ℕ → ℕ) (os : List Occurrence)
      → size_word < 2 ^ 32
      → IsBlank k
      → c.task ≢ u.task
      → c.thread ≢ u.thread
      → T.add k.task_list c.task ≡ some (t1, ts1)
      → T.add ts1 u.task ≡ some (t2, ts2)
      → M.add (k.thread_lists c.task) c.thread ≡ some (n1, ths1)
      → M.add (k.thread_lists u.task) u.thread ≡ some (n2, ths2)
      → ((r : Started)
          → alux_main L P T M end_word size_word map k c u ≡ some r
          → Permits x64_map L P M scale (world_of u r) os)
      → Returns
          (alux_main L P T M end_word size_word map k c u >>= λ r.
            play x64_map L P M scale (world_of u r) os)
          (IsWhole x64_map)
  alux_main_lasts end_word size_word map k c u t1 t2 n1 n2 ts1 ts2 ths1 ths2 scale os small v d d'
        e1 e2 e3 e4 h =
      let b = boot-booted L P T M k c u t1 t2 n1 n2 ts1 ts2 ths1 ths2 d e1 e2 e3 e4 in
      let k' = begins L P T M k c u t1 t2 n1 n2 ts1 ts2 ths1 ths2 in
      let r = started end_word size_word map k' in
      let comes : alux_main L P T M end_word size_word map k c u ≡ some r =
        rw (alux_main-boot L P T M end_word size_word map k c u small, b) refl in
      let (ready, same) =
        new_user-IsReady (program end_word size_word) map
          (image-IsLoadable end_word size_word small) in
      rw comes (
        play-IsWhole x64_map L P M scale (world_of u r) os
          (record {
            orderly = begins-IsOrderly L P T M k c u t1 t2 n1 n2 ts1 ts2 ths1 ths2 v d d' e3 e4;
            ready =
                updated-IsMapReady x64_map L P M scale (λ i. none) u.task
                  (some r.user_task.executable_map) (λ i. tt) ready;
          })
          (h r comes))
