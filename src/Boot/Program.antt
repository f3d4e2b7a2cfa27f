-- ===== src/Boot/Program.antt =====
-- From the image of a program to its first page faults: `AluxMainX64`, the switches of the CPUs, and
-- the page fault handler.
use alux.Prelude.{
  ℕ, ◌+◌, ◌^◌, ◌<◌, ◌≤◌, ◌≡◌, ◌≢◌, refl, Bool, true, List, Option, none, some, LinkedList, IdMap,
  All, Returns, Returns->>=, Returns-mono, arith, ◌>>=◌,
}
use alux.Boot.Main.{Started, alux_main}
use alux.Boot.Running.{IsEmpty, boot-IsAlive}
use alux.Boot.Start.{Fresh, boot, construct, start_user, run}
use alux.Kernel.{Kernel, Garbage}
use alux.Memory.Handled.{Survives, faults-Survives}
use alux.Scheduler.Exclusion.{Inv}
use alux.Tasks.Holding.{IsAlive}
use alux.Tasks.Kinds.{new_user}
use alux.X64.Image.{Executable, new_image, get_program_end, new_executable, new_image-IsAligned}
use alux.X64.Program.{Belongs, IsLoadable, x64_map}
use alux.X64.Sectors.{get_entry_point}

-- The program in its image
abbrev pub program : ℕ → ℕ → Executable
program end_word size_word =
    let i = new_image end_word size_word in
    record { memory = i.program_start; length = i.program_size }

-- What is there once the kernel runs
abbrev started_by : Executable → ℕ → ℕ → ℕ → Kernel → Started
started_by exec end_word size_word map k =
    let (user_task, calls) = new_user exec map in
    record {
      kernel = k;
      reserved = get_program_end (new_image end_word size_word);
      user_task = user_task;
      entry = get_entry_point user_task.executable_map;
      calls = calls;
    }

abbrev pub started : ℕ → ℕ → ℕ → Kernel → Started
started end_word size_word map k = started_by (program end_word size_word) end_word size_word map k

pub image-IsLoadable :
    (end_word size_word : ℕ) → size_word < 2 ^ 32 → IsLoadable (program end_word size_word)
unfolding new_executable
image-IsLoadable end_word size_word h =
    let (_, _, _, small, _, _, e) = new_image-IsAligned end_word size_word h in
    (ground (arith, e), omega (arith, small, h))

pub new_user-IsReady :
    (e : Executable) (map : ℕ)
    → IsLoadable e
    → x64_map.IsReady (new_user e map).0.executable_map
      × (x64_map.get_executable (new_user e map).0.executable_map ≡ e)
unfolding new_user
new_user-IsReady e map h = x64_map.generated e h

module _ (L : LinkedList Garbage) (P : LinkedList ℕ) (T M : IdMap) where
  -- The boot around the making of the user task
  boot-eq :
      (k : Kernel) (c u : Fresh)
      → boot L P T M k c u ≡ (construct L P T M k c >>= λ k'. start_user L P T M k' u)
  unfolding boot
  boot-eq k c u = refl

  -- Where the assertions of the executable hold, what is left is the boot.
  begun_lem :
      (end_word size_word map : ℕ) (u : Fresh) (m : Option Kernel)
      → size_word < 2 ^ 32
      → (m >>= λ k1.
          new_executable
            (new_image end_word size_word).program_start
            (new_image end_word size_word).program_size
          >>= λ exec.
              start_user L P T M k1 u >>= λ k2. some (started_by exec end_word size_word map k2))
        ≡ ((m >>= λ k1. start_user L P T M k1 u) >>= λ k'. some (started end_word size_word map k'))
  begun_lem end_word size_word map u none h = refl
  begun_lem end_word size_word map u (some k1) h =
      rw (new_image-IsAligned end_word size_word h).6 refl

  pub alux_main-boot :
      (end_word size_word map : ℕ) (k : Kernel) (c u : Fresh)
      → size_word < 2 ^ 32
      → alux_main L P T M end_word size_word map k c u
        ≡ (boot L P T M k c u >>= λ k'. some (started end_word size_word map k'))
  unfolding alux_main
  alux_main-boot end_word size_word map k c u h =
      rw (boot-eq k c u) (begun_lem end_word size_word map u (construct L P T M k c) h)

-- A thread runs a program: the memory of the program lies past the kernel's, and both before the end
-- of what is reserved; its entry point is an address of the program; and after any switches of the
-- CPUs, which return and keep the invariant of the scheduler, it survives the faults.
pub record IsRunning (L : LinkedList Garbage) (P : LinkedList ℕ) (e : Executable)
    (kernel_end th : ℕ) (scale : ℕ → ℕ) (es : List (ℕ × ℕ)) (faults : List (ℕ × Bool × ℕ))
    (r : Started) : Type 0 where
  pub past_kernel : kernel_end ≤ e.memory
  pub reserved : r.reserved ≡ e.memory + e.length
  pub entry : Belongs e r.entry
  pub survives : Returns (run L P r.kernel scale es) (λ k'.
      Inv k'
      × Survives x64_map L
          (record { kernel = k'; critical = true })
          th
          r.user_task.executable_map
          faults)

module _ (L : LinkedList Garbage) (P : LinkedList ℕ) (T M : IdMap) where
  started-IsRunning :
      (end_word size_word map th : ℕ) (scale : ℕ → ℕ) (es : List (ℕ × ℕ))
      (faults : List (ℕ × Bool × ℕ)) (k : Kernel)
      → 0 < size_word
      → size_word < 2 ^ 32
      → All (λ f. Belongs (program end_word size_word) f.0) faults
      → Returns
          (run L P k scale es)
          (λ k'. Inv k' × IsAlive (record { kernel = k'; critical = true }) th)
      → IsRunning L P
          (program end_word size_word)
          (new_image end_word size_word).kernel_end
          th
          scale
          es
          faults
          (started end_word size_word map k)
  unfolding get_entry_point
  started-IsRunning end_word size_word map th scale es faults k pos small inside v =
      let (past, _, held, _, end, _, _) = new_image-IsAligned end_word size_word small in
      let (ready, same) =
        new_user-IsReady (program end_word size_word) map
          (image-IsLoadable end_word size_word small) in
      record {
        past_kernel = past;
        reserved = end;
        entry = (omega arith, omega (arith, pos, held));
        survives = Returns-mono _ _ (run L P k scale es) v (λ k' w. (
          w.0,
          faults-Survives x64_map L (record { kernel = k'; critical = true }) th
              (new_user (program end_word size_word) map).0.executable_map faults w.1 ready
              (rw same inside),
        ));
      }

  -- The kernel runs the first user program. From an empty store, when the list of the scheduler and
  -- those of the two tasks have an identifier left, the addresses of the new objects differ, and the
  -- program is not empty, `AluxMainX64` comes to the call of `Run`: no assertion fails, that of
  -- `Executable` included, and it does not panic. The memory of the kernel and of the program is
  -- reserved, and the thread begins at an address of the program. However the CPUs then switch, every
  -- sequence of page faults of the thread at addresses of the program, each with a page to give, is
  -- handled without a panic.
  pub alux_main-IsRunning :
      (end_word size_word map : ℕ) (k : Kernel) (c u : Fresh) (t1 t2 n1 n2 : ℕ)
      (ts1 ts2 ths1 ths2 : List ℕ) (scale : ℕ → ℕ) (es : List (ℕ × ℕ))
      (faults : List (ℕ × Bool × ℕ))
      → 0 < size_word
      → size_word < 2 ^ 32
      → All (λ f. Belongs (program end_word size_word) f.0) faults
      → IsEmpty k
      → c.task ≢ u.task
      → c.thread ≢ u.thread
      → T.add k.task_list c.task ≡ some (t1, ts1)
      → T.add ts1 u.task ≡ some (t2, ts2)
      → M.add (k.thread_lists c.task) c.thread ≡ some (n1, ths1)
      → M.add (k.thread_lists u.task) u.thread ≡ some (n2, ths2)
      → Returns (alux_main L P T M end_word size_word map k c u) (
          IsRunning L P
            (program end_word size_word)
            (new_image end_word size_word).kernel_end
            u.thread
            scale
            es
            faults)
  alux_main-IsRunning end_word size_word map k c u t1 t2 n1 n2 ts1 ts2 ths1 ths2 scale es faults pos
        small inside v d d' e1 e2 e3 e4 =
      rw (alux_main-boot L P T M end_word size_word map k c u small) (
        Returns->>= _ _ (boot L P T M k c u) _
          (boot-IsAlive L P T M k c u t1 t2 n1 n2 ts1 ts2 ths1 ths2 scale es v d d' e1 e2 e3 e4)
          (λ k' w.
            started-IsRunning end_word size_word map u.thread scale es faults k' pos small inside
              w))
