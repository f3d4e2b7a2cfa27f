-- ===== src/Arch/Program.antt =====
-- kernel/src/arch/all/executable.hpp and executable-map.hpp: what the kernel relies on of a program
-- in the address space of a task, on every architecture.
use alux.Prelude.{ℕ, ◌≡◌, ◌⊎◌, Bool, true, false, Option, some, List, [], Returns}

-- `class ExecutableMap`. `Call` is what an implementation asks of memory, and `IsReady` its
-- invariant; `IsLoadable` says which programs it takes.
pub record ExecutableMap : Type 1 where
  pub Executable : Type 0
  pub Map : Type 0
  pub Call : Type 0
  -- `Executable::GenerateMap`
  pub generate_map : Executable → Map × List Call
  pub get_executable : Map → Executable
  pub get_entry_point : Map → ℕ
  -- `HandlePageFault`, with what an allocation of a page gives; none is a failed assertion.
  pub handle_page_fault : Map → (addr : ℕ) → Bool → Option ℕ → Option (Map × Bool × List Call)
  -- `Delete`
  pub delete_map : Map → List Call
  -- Whether an address belongs to a program
  pub Belongs : Executable → ℕ → Type 0
  pub IsLoadable : Executable → Type 0
  pub IsReady : Map → Type 0
  pub generated :
      (e : Executable)
      → IsLoadable e
      → IsReady (generate_map e).0 × (get_executable (generate_map e).0 ≡ e)
  -- A page fault is handled for exactly the addresses that belong to the program, and the map stays
  -- ready, for the same program.
  pub handled :
      (m : Map) (addr : ℕ) (write : Bool) (page : ℕ)
      → IsReady m
      → Returns (handle_page_fault m addr write (some page)) λ r.
        IsReady r.0
        × (get_executable r.0 ≡ get_executable m)
        × (((r.1 ≡ true) × Belongs (get_executable m) addr)
            ⊎ ((r.1 ≡ false) × (¬ Belongs (get_executable m) addr) × (r.2 ≡ [])))
