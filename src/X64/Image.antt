-- ===== src/X64/Image.antt =====
-- kernel/src/arch/x64/program-image.cpp and executable.cpp.
use alux.Prelude.{
  ℕ, ◌+◌, ◌-◌, ◌%◌, ◌^◌, ◌<◌, ◌≤◌, ◌≡◌, ◌≢◌, ◌↔◌, Bool, true, not, ◌==◌, if◌then◌else◌, u32, u64,
  Option, some, ensure, arith, ◌>>◌,
}

-- 2 MB
abbrev pub sector_size : ℕ
sector_size = 0x200000

-- `class ProgramImage`, and whether the program was moved by `Memmove`.
pub record ProgramImage : Type 0 where
  pub kernel_end : ℕ
  pub program_start : ℕ
  pub program_size : ℕ
  pub moved : Bool

abbrev round_up : ℕ → ℕ
round_up n = if not (n % sector_size == 0) then u64 (n + (sector_size - n % sector_size)) else n

-- `ProgramImage::ProgramImage`, given the two words at 0x100020 and 0x100024. The sum with 0x100000
-- is one of 32 bits.
unfoldable pub new_image : ℕ → ℕ → ProgramImage
new_image end_word size_word =
    let kernel_end = u32 (end_word + 0x100000) in
    record {
      kernel_end = kernel_end;
      program_start = round_up kernel_end;
      program_size = round_up size_word;
      moved = not (kernel_end % sector_size == 0);
    }

-- `ProgramImage::GetProgramEnd`
unfoldable pub get_program_end : ProgramImage → ℕ
get_program_end i = u64 (i.program_start + i.program_size)

-- x64 `class Executable`
pub record Executable : Type 0 where
  pub memory : ℕ
  pub length : ℕ

-- `Executable::Executable`, with its two assertions.
unfoldable pub new_executable : ℕ → ℕ → Option Executable
new_executable m l =
    ensure (l % sector_size == 0)
    >> ensure (m % sector_size == 0)
    >> some (record { memory = m; length = l })

round_up_bounds :
    (n : ℕ)
    → n < 2 ^ 32
    → (n ≤ round_up n) × (round_up n < n + sector_size) × (round_up n % sector_size ≡ 0)
round_up_bounds n h = ground arith

-- Whatever the boot loader left in the two words, the image starts at or after the end of the kernel
-- and holds the whole program, with less than 2 MB of padding for each, its end does not wrap, the
-- program is moved exactly if the kernel's end is not where it starts, and the assertions of
-- `Executable` hold for it.
pub new_image-IsAligned :
    (end_word size_word : ℕ)
    → size_word < 2 ^ 32
    → let i = new_image end_word size_word in
      (i.kernel_end ≤ i.program_start)
      × (i.program_start < i.kernel_end + sector_size)
      × (size_word ≤ i.program_size)
      × (i.program_size < size_word + sector_size)
      × (get_program_end i ≡ i.program_start + i.program_size)
      × ((i.moved ≡ true) ↔ (i.program_start ≢ i.kernel_end))
      × (new_executable i.program_start i.program_size
          ≡ some (record { memory = i.program_start; length = i.program_size }))
unfolding new_image get_program_end new_executable
new_image-IsAligned end_word size_word h =
    let (a, b, c) = round_up_bounds (u32 (end_word + 0x100000)) (omega arith) in
    let (a', b', c') = round_up_bounds size_word h in
    (a, b, a', b', omega arith, ground arith, rw (c, c'))
