-- ===== src/X64/Sectors.antt =====
-- kernel/src/arch/x64/executable-map.hpp and executable-map.cpp. The calls of `anarch::UserMap`,
-- `anarch::Domain` and `ansa::Memcpy`, which are not in the repository, are logged in their order;
-- what `AllocPhys` gives is an argument. No frame has the address 0, which marks a page with none.
use alux.Prelude.{
  ℕ, zero, suc, ◌+◌, ◌-◌, ◌*◌, ◌/◌, ◌%◌, ◌^◌, Bool, true, false, not, ◌&&◌, ◌||◌, ltb, leb, ◌==◌,
  if◌then◌else◌, update, u64, Option, none, some, List, [], ◌∷◌, ◌++◌, ensure, ◌>>=◌, ◌>>◌,
}
use alux.X64.Image.{Executable, sector_size}

abbrev pub start_addr : ℕ
start_addr = 0x8000000000

abbrev pub page_size : ℕ
page_size = 0x1000

-- `struct Sector`: mode 0 is unmapped, 1 read, 2 read and write.
pub record Sector : Type 0 where
  pub mode : ℕ
  pub writables : ℕ → ℕ
  pub virtual_addr : ℕ
  pub read_only_addr : ℕ

-- x64 `class ExecutableMap`
pub record ExecutableMap : Type 0 where
  pub executable : Executable
  pub sector_count : ℕ
  pub sectors : ℕ → Sector

-- A call of a library. `map_at dest phys size writable` maps one page of the size.
pub data Call : Type 0 where
  reserve_at : (addr size count : ℕ) → Call
  map_at : (dest phys size : ℕ) (writable : Bool) → Call
  unmap_and_reserve : (addr size : ℕ) → Call
  rereserve : (addr size new_size : ℕ) → Call
  copy : (dest source size : ℕ) → Call
  free_phys : (addr : ℕ) → Call

-- `(int)n` is not negative.
abbrev fits_int : ℕ → Bool
fits_int n = ltb (n % 2 ^ 32) (2 ^ 31)

-- `ExecutableMap::ExecutableMap`; `sectorCount` is an `int`, and entries past it stand for no object.
unfoldable pub new_map : Executable → ExecutableMap × List Call
new_map e =
    let count = e.length / sector_size % 2 ^ 32 in
    (
      record {
        executable = e;
        sector_count = count;
        sectors = λ i. record {
          mode = 0;
          writables = λ _. 0;
          virtual_addr = start_addr + i * sector_size;
          read_only_addr = e.memory + i * sector_size;
        };
      },
      if count == 0 then [] else reserve_at start_addr sector_size count ∷ [],
    )

-- `ExecutableMap::GetExecutable`
unfoldable pub get_executable : ExecutableMap → Executable
get_executable m = m.executable

-- `ExecutableMap::GetEntryPoint`
unfoldable pub get_entry_point : ExecutableMap → ℕ
get_entry_point m = start_addr

-- `ExecutableMap::MapROLargePage`
unfoldable pub map_ro_large_page : Sector → Sector × List Call
map_ro_large_page s =
    (record s { mode = 1 }, map_at s.virtual_addr s.read_only_addr sector_size false ∷ [])

-- `ExecutableMap::MapROSmallPage`
unfoldable pub map_ro_small_page : Sector → ℕ → List Call
map_ro_small_page s page_addr =
    let sub_index = page_addr % sector_size in
    map_at (s.virtual_addr + sub_index) (s.read_only_addr + sub_index) page_size false ∷ []

-- `ExecutableMap::SwitchToWritable`
unfoldable pub switch_to_writable : Sector → Sector × List Call
switch_to_writable s = (
  record s { mode = 2; writables = λ _. 0 },
  (if s.mode == 1 then unmap_and_reserve s.virtual_addr sector_size ∷ [] else [])
      ++ (rereserve s.virtual_addr sector_size page_size ∷ []),
)

-- `ExecutableMap::MapWritablePage`, which panics where `AllocPhys` fails.
unfoldable pub map_writable_page : Executable → Sector → ℕ → Option ℕ → Option (Sector × List Call)
map_writable_page e s page_addr none = none
map_writable_page e s page_addr (some page) =
    let page_idx = page_addr % sector_size / page_size in
    some (
      record s { writables = update s.writables page_idx page },
      map_at page_addr page page_size true
          ∷ copy page_addr (e.memory + (page_addr - start_addr)) page_size
          ∷ [],
    )

-- `ExecutableMap::HandleReadFault`
unfoldable pub handle_read_fault : Sector → ℕ → Sector × List Call
unfolding map_ro_large_page map_ro_small_page
handle_read_fault s page_addr =
    if s.mode == 0
    then map_ro_large_page s
    else if s.mode == 2
    then (s, map_ro_small_page s page_addr)
    else (s, [])

-- `ExecutableMap::HandleWriteFault`
unfoldable pub handle_write_fault : Executable → Sector → ℕ → Option ℕ → Option (Sector × List Call)
unfolding switch_to_writable map_writable_page
handle_write_fault e s page_addr alloc =
    let (s', calls) = if not (s.mode == 2) then switch_to_writable s else (s, []) in
    do (s'', calls') ← map_writable_page e s' page_addr alloc; some (s'', calls ++ calls')

-- `ExecutableMap::HandlePageFault`
unfoldable pub handle_page_fault :
    ExecutableMap → ℕ → Bool → Option ℕ → Option (ExecutableMap × Bool × List Call)
unfolding handle_read_fault handle_write_fault
handle_page_fault m addr write alloc =
    let idx = (addr - start_addr) / sector_size % 2 ^ 32 in
    let s = m.sectors idx in
    let page_addr = addr - addr % page_size in
    if ltb addr start_addr || leb (u64 (start_addr + m.executable.length)) addr
    then some (m, false, [])
    else (do
      ensure (ltb idx (2 ^ 31) && ltb idx m.sector_count)
      (s', calls) ←
          if write
          then handle_write_fault m.executable s page_addr alloc
          else some (handle_read_fault s page_addr)
      some (record m { sectors = update m.sectors idx s' }, true, calls))

-- The frames that the inner loop of the destructor frees, from page `j` on for `n` pages.
unfoldable pub free_pages : ℕ → ℕ → (ℕ → ℕ) → List Call
free_pages zero j w = []
free_pages (suc n) j w =
    let rest = free_pages n (j + 1) w in if w j == 0 then rest else free_phys (w j) ∷ rest

-- What the destructor frees of one sector.
unfoldable pub free_sector : Sector → List Call
free_sector s = if s.mode == 2 then free_pages 512 0 s.writables else []

-- The loop of the destructor over the sectors, from sector `i` on for `n` sectors.
unfoldable pub free_sectors : ℕ → ℕ → (ℕ → Sector) → List Call
free_sectors zero i ss = []
free_sectors (suc n) i ss = free_sector (ss i) ++ free_sectors n (i + 1) ss

-- `ExecutableMap::~ExecutableMap`, as the calls of `FreePhys`.
unfoldable pub delete_map : ExecutableMap → List Call
unfolding free_sectors free_sector free_pages
delete_map m = free_sectors m.sector_count 0 m.sectors
