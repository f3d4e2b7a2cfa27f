-- ===== src/Examples/Faults.antt =====
-- Programs and page faults: instances of the theorems, and tests.
use alux.Prelude.{
  occurrences, ℕ, ◌+◌, ◌-◌, ◌/◌, ◌%◌, ◌≤◌, ◌<◌, ◌≡◌, ◌≢◌, ◌↔◌, ◌⊎◌, refl, true, false, Returns, All,
  some, none, [], arith, ◌>>=◌,
}
use alux.X64.Image.{
  Executable, sector_size, new_image, new_executable, get_program_end, new_image-IsAligned,
}
use alux.X64.Sectors.{
  ExecutableMap, copy, free_phys, start_addr, page_size, new_map, handle_page_fault, delete_map,
}
use alux.X64.Faults.{
  IsPlaced, InProgram, Translates, Only, EndsIn, sector_of, new_map-IsPlaced,
  handle_page_fault-IsPlaced, read_fault, write_fault,
}
use alux.X64.Frames.{write_twice_leaks}
use alux.Kernel.{Kernel}
use alux.Tasks.Kinds.{user_task, dealloc}
use alux.Tasks.Emptied.{AreIdle}
use alux.Tasks.Ending.{IsEnded, dealloc-IsEnded}
use alux.Examples.Lists.{objects, links}
use alux.Examples.Maps.{sevens}
use alux.Examples.Store.{running}

new_image-IsAligned_example :
    let i = new_image 0x1234 0x5000 in
    (i.kernel_end ≤ i.program_start)
    × (i.program_start < i.kernel_end + sector_size)
    × (0x5000 ≤ i.program_size)
    × (i.program_size < 0x5000 + sector_size)
    × (get_program_end i ≡ i.program_start + i.program_size)
    × ((i.moved ≡ true) ↔ (i.program_start ≢ i.kernel_end))
    × (new_executable i.program_start i.program_size
        ≡ some (record { memory = i.program_start; length = i.program_size }))
new_image-IsAligned_example = new_image-IsAligned 0x1234 0x5000 (omega arith)

-- A program of 4 MB in memory from 6 MB on.
abbrev program : Executable
program = record { memory = 0x600000; length = 0x400000 }

abbrev pub fresh : ExecutableMap
fresh = (new_map program).0

-- An address in its second sector.
abbrev pub address : ℕ
address = start_addr + 0x201234

pub fresh-IsPlaced : IsPlaced fresh
fresh-IsPlaced = new_map-IsPlaced program refl (omega arith)

pub address-InProgram : InProgram fresh address
unfolding new_map
address-InProgram = omega arith

handle_page_fault-IsPlaced_example :
    Returns (handle_page_fault fresh address true (some 0x9000)) λ r.
      IsPlaced r.0
      × (((r.1 ≡ true) × InProgram fresh address)
          ⊎ ((r.1 ≡ false) × (¬ InProgram fresh address) × (r.0 ≡ fresh) × (r.2 ≡ [])))
handle_page_fault-IsPlaced_example =
    handle_page_fault-IsPlaced fresh address fresh-IsPlaced 0x9000 true

read_fault_example : Returns (handle_page_fault fresh address false none) λ r.
    Only (Translates address (fresh.executable.memory + (address - start_addr)) false) r.2
    × (1 ≤ (sector_of r.0 address).mode)
unfolding new_map
read_fault_example =
    read_fault fresh address fresh-IsPlaced none address-InProgram (λ e. absurd (omega arith))
      (omega arith)

write_fault_example : Returns (handle_page_fault fresh address true (some 0x9000)) λ r.
    ((sector_of r.0 address).mode ≡ 2)
    × ((sector_of r.0 address).writables ((address - start_addr) % sector_size / page_size)
        ≡ 0x9000)
    × EndsIn
        (Translates address (0x9000 + address % page_size) true)
        (λ c.
          c
          ≡ copy
              (address - address % page_size)
              (fresh.executable.memory + (address - address % page_size - start_addr))
              page_size)
        r.2
write_fault_example = write_fault fresh address fresh-IsPlaced 0x9000 address-InProgram

-- Task 0 ran the program, and thread 5 of it waits.
abbrev quiet : Kernel
quiet = record running { objs = λ x. record { deadline = 0; running = false }; current = λ c. none }

quiet-AreIdle : AreIdle quiet (quiet.thread_lists 0)
unfolding occurrences
quiet-AreIdle = record {
  detached = λ p. refl;
  once = λ x. ground arith;
  queued = λ x. ground arith;
  idle = λ x h. record {
    joined = ground arith;
    scheduled = ground arith;
    alive = ground arith;
    home = ground arith;
  };
}

dealloc-IsEnded_example :
    Returns
      (handle_page_fault fresh address true (some 0x9000) >>= λ r.
        dealloc objects links sevens quiet 0
          (user_task (record { memory_map = 70; executable_map = r.0 })))
      (IsEnded sevens quiet 0 70 0x9000)
dealloc-IsEnded_example =
    dealloc-IsEnded objects links sevens quiet 0 70 fresh address 0x9000 quiet-AreIdle refl
      fresh-IsPlaced address-InProgram (λ e. absurd (omega arith))

write_twice_leaks_example :
    Returns
      (handle_page_fault fresh address true (some 0x9000) >>= λ r.
        handle_page_fault r.0 address true (some 0xa000))
      (λ r. All (λ c. c ≢ free_phys 0x9000) (delete_map r.0))
unfolding new_map
write_twice_leaks_example =
    write_twice_leaks fresh address 0x9000 0xa000 fresh-IsPlaced address-InProgram
      (λ i j e. absurd (omega arith)) (λ e. absurd (omega arith)) (λ e. absurd (omega arith))
