-- ===== src/X64/Faults.antt =====
-- What a page fault does to the address space of a program.
use alux.Prelude.{
  ℕ, ◌+◌, ◌-◌, ◌*◌, ◌/◌, ◌%◌, ◌^◌, ◌<◌, ◌≤◌, ◌≡◌, ◌≢◌, ◌⊎◌, Bool, true, false, Option, some, List,
  [], ◌∷◌, Returns, arith,
}
use alux.X64.Image.{Executable, sector_size}
use alux.X64.Sectors.{
  ExecutableMap, Sector, Call, map_at, copy, start_addr, page_size, new_map, handle_page_fault,
}

-- The map belongs to an executable that `Executable` accepted, within the address space, and each
-- sector stands at its place.
pub record IsPlaced (m : ExecutableMap) : Type 0 where
  pub count : m.executable.length ≡ m.sector_count * sector_size
  pub small : m.sector_count < 2 ^ 31
  pub virtual_place : (i : ℕ) → (m.sectors i).virtual_addr ≡ start_addr + i * sector_size
  pub read_place : (i : ℕ) → (m.sectors i).read_only_addr ≡ m.executable.memory + i * sector_size

pub new_map-IsPlaced :
    (e : Executable) → e.length % sector_size ≡ 0 → e.length < 2 ^ 52 → IsPlaced (new_map e).0
unfolding new_map
new_map-IsPlaced e h small = ground arith

-- The call maps `addr` to the physical address `phys`.
abbrev pub Translates : ℕ → ℕ → Bool → Call → Type 0
Translates addr phys writable (map_at dest p size w) =
    (dest ≤ addr) × (addr < dest + size) × (p + (addr - dest) ≡ phys) × (w ≡ writable)
Translates addr phys writable _ = ⊥

abbrev pub Only : (Call → Type 0) → List Call → Type 0
Only Q (c ∷ []) = Q c
Only Q _ = ⊥

abbrev pub EndsIn : (Call → Type 0) → (Call → Type 0) → List Call → Type 0
EndsIn Q R (c ∷ d ∷ []) = Q c × R d
EndsIn Q R (c ∷ d ∷ e ∷ cs) = EndsIn Q R (d ∷ e ∷ cs)
EndsIn Q R _ = ⊥

abbrev pub InProgram : ExecutableMap → ℕ → Type 0
InProgram m addr = (start_addr ≤ addr) × (addr < start_addr + m.executable.length)

abbrev pub sector_of : ExecutableMap → ℕ → Sector
sector_of m addr = m.sectors ((addr - start_addr) / sector_size)

module _ (m : ExecutableMap) (addr : ℕ) (v : IsPlaced m) where
  -- Every fault returns for every frame that is given, so the assertion on the sector's index holds,
  -- and keeps the sectors at their places; it is refused, with nothing done, exactly outside the program.
  pub handle_page_fault-IsPlaced :
      (page : ℕ) (write : Bool)
      → Returns (handle_page_fault m addr write (some page)) λ r.
        IsPlaced r.0
        × (((r.1 ≡ true) × InProgram m addr)
            ⊎ ((r.1 ≡ false) × (¬ InProgram m addr) × (r.0 ≡ m) × (r.2 ≡ [])))
  unfolding handle_page_fault
  handle_page_fault-IsPlaced page write = ground arith

  -- A read fault inside the program, on a sector that is unmapped or writable, makes one call, which
  -- maps the address, read-only, to the byte of the executable that belongs there.
  pub read_fault :
      (alloc : Option ℕ)
      → InProgram m addr
      → (sector_of m addr).mode ≢ 1
      → (sector_of m addr).mode ≤ 2
      → Returns (handle_page_fault m addr false alloc) λ r.
        Only (Translates addr (m.executable.memory + (addr - start_addr)) false) r.2
        × (1 ≤ (sector_of r.0 addr).mode)
  unfolding handle_page_fault
  read_fault alloc inside unmapped mode = ground (
    arith,
    v.virtual_place ((addr - start_addr) / sector_size),
    v.read_place ((addr - start_addr) / sector_size),
  )

  abbrev page_of : ℕ
  page_of = (addr - start_addr) % sector_size / page_size

  -- A write fault inside the program makes the sector writable and records the new frame for the page.
  -- Its last two calls map the address to the frame, writable, and copy the page of the executable that
  -- belongs there.
  pub write_fault :
      (page : ℕ)
      → InProgram m addr
      → Returns (handle_page_fault m addr true (some page)) λ r.
        ((sector_of r.0 addr).mode ≡ 2)
        × ((sector_of r.0 addr).writables page_of ≡ page)
        × EndsIn
            (Translates addr (page + addr % page_size) true)
            (λ c.
              c
              ≡ copy
                  (addr - addr % page_size)
                  (m.executable.memory + (addr - addr % page_size - start_addr))
                  page_size)
            r.2
  unfolding handle_page_fault
  write_fault page inside = ground arith

  -- It keeps the frames that the other pages of a writable sector have.
  pub write_fault_keeps :
      (page j : ℕ)
      → InProgram m addr
      → (sector_of m addr).mode ≡ 2
      → j ≢ page_of
      → Returns
          (handle_page_fault m addr true (some page))
          λ r. (sector_of r.0 addr).writables j ≡ (sector_of m addr).writables j
  unfolding handle_page_fault
  write_fault_keeps page j inside mode ne = ground arith
