-- ===== src/Syscalls/Printing.antt =====
-- `PrintSyscall` of kernel/src/syscall/console.cpp prints a string up to its end.
use alux.Prelude.{ℕ, zero, suc, ◌+◌, ◌^◌, ◌<◌, ◌≡◌, ◌≢◌, u64, some, List, [], ◌∷◌, arith}
use alux.Syscalls.Console.{print}

-- The bytes from an address on, where addresses wrap around at 2 ^ 64.
abbrev pub bytes : (ℕ → ℕ) → (addr count : ℕ) → List ℕ
bytes read addr zero = []
bytes read addr (suc n) = read addr ∷ bytes read (u64 (addr + 1)) n

u64-shift : (addr i : ℕ) → u64 (u64 (addr + 1) + i) ≡ u64 (addr + suc i)
u64-shift addr i = omega arith

-- `PrintSyscall` ends for every string with a zero byte, in one round more than its length: it prints
-- exactly the bytes before the first zero.
pub print-bytes :
    (rounds : ℕ) (read : ℕ → ℕ) (addr len : ℕ)
    → addr < 2 ^ 64
    → len < rounds
    → ((i : ℕ) → i < len → read (u64 (addr + i)) ≢ 0)
    → read (u64 (addr + len)) ≡ 0
    → print rounds read addr ≡ some (bytes read addr len)
unfolding print
print-bytes zero read addr len small h more end = absurd (omega arith)
print-bytes (suc rounds) read addr zero small h more end =
    let same : u64 (addr + 0) ≡ addr = omega arith in
    let stop : read addr ≡ 0 = rw same at end in ground arith
print-bytes (suc rounds) read addr (suc n) small h more end =
    let ih =
      print-bytes rounds read (u64 (addr + 1)) n (omega arith) (omega arith)
        (λ i lt. rw (u64-shift addr i) (more (suc i) (omega arith))) (rw (u64-shift addr n) end) in
    let same : u64 (addr + 0) ≡ addr = omega arith in
    let go_on : read addr ≢ 0 = rw same at (more 0 (omega arith)) in ground (arith, ih)
