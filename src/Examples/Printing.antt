-- ===== src/Examples/Printing.antt =====
-- Printing and page faults under a hold scope: instances of the theorems, and tests.
use alux.Prelude.{
  ℕ, ◌-◌, ◌^◌, ◌≡◌, ◌==◌, if◌then◌else◌, ◌⊎◌, refl, true, false, some, none, [], ◌∷◌, Returns,
  arith,
}
use alux.Memory.Handled.{IsHandled, handle_page_fault-IsHandled}
use alux.Memory.PageFault.{handle_page_fault}
use alux.Syscalls.Console.{print, set_color}
use alux.Syscalls.Printing.{bytes, print-bytes}
use alux.X64.Sectors.{new_map, get_executable}
use alux.X64.Program.{Belongs, x64_map}
use alux.Examples.Calls.{user_cpu, five-IsAlive}
use alux.Examples.Faults.{fresh, address, fresh-IsPlaced}
use alux.Examples.Lists.{objects}

-- "hi" at the end of the address space.
abbrev text : ℕ → ℕ
text addr = if addr == 2 ^ 64 - 2 then 104 else if addr == 2 ^ 64 - 1 then 105 else 0

print-bytes_example : print 7 text (2 ^ 64 - 2) ≡ some (bytes text (2 ^ 64 - 2) 2)
print-bytes_example =
    print-bytes 7 text (2 ^ 64 - 2) 2 (omega arith) (omega arith) (λ i lt. ground arith)
      (ground arith)

printed : bytes text (2 ^ 64 - 2) 2 ≡ 104 ∷ 105 ∷ []
printed = refl

dark_blue : set_color 0xfffffff9 false ≡ (1, false)
unfolding set_color
dark_blue = refl

pub address-Belongs : Belongs (get_executable fresh) address
unfolding new_map get_executable
address-Belongs = (omega arith, omega arith)

-- A write to the second sector of the program.
handle_page_fault-IsHandled_example :
    (Belongs (get_executable fresh) address
      × Returns
          (handle_page_fault x64_map objects user_cpu
            (some 5)
            (some fresh)
            address
            true
            (some 0x9000))
          (IsHandled x64_map user_cpu fresh))
    ⊎ (¬ Belongs (get_executable fresh) address)
      × (handle_page_fault x64_map objects user_cpu (some 5) (some fresh) address true (some 0x9000)
          ≡ none)
handle_page_fault-IsHandled_example =
    handle_page_fault-IsHandled x64_map objects user_cpu 5 fresh address true 0x9000 five-IsAlive
      fresh-IsPlaced
