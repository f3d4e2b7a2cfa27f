-- ===== src/X64/Program.antt =====
-- The executables and executable maps of kernel/src/arch/x64 are programs as the kernel uses them.
use alux.Prelude.{
  ℕ, ◌+◌, ◌%◌, ◌^◌, ◌<◌, ◌≤◌, ◌≡◌, ◌⊎◌, refl, inl, inr, Bool, true, false, some, [], Returns,
  Returns-mono, Returns-both, arith,
}
use alux.Arch.Program as arch
use alux.X64.Faults.{IsPlaced, new_map-IsPlaced, handle_page_fault-IsPlaced}
use alux.X64.Image.{Executable, sector_size}
use alux.X64.Sectors.{
  ExecutableMap, Call, start_addr, new_map, get_executable, get_entry_point, handle_page_fault,
  delete_map,
}

-- Whole sectors, within the address space.
abbrev pub IsLoadable : Executable → Type 0
IsLoadable e = (e.length % sector_size ≡ 0) × (e.length < 2 ^ 52)

abbrev pub Belongs : Executable → ℕ → Type 0
Belongs e addr = (start_addr ≤ addr) × (addr < start_addr + e.length)

pub generated_lem :
    (e : Executable) → IsLoadable e → IsPlaced (new_map e).0 × (get_executable (new_map e).0 ≡ e)
unfolding new_map get_executable
generated_lem e h = (new_map-IsPlaced e h.0 h.1, refl)

same_program :
    (m : ExecutableMap) (addr page : ℕ) (write : Bool)
    → IsPlaced m
    → Returns (handle_page_fault m addr write (some page)) λ r. r.0.executable ≡ m.executable
unfolding handle_page_fault
same_program m addr page write v = ground arith

pub handled_lem :
    (m : ExecutableMap) (addr : ℕ) (write : Bool) (page : ℕ)
    → IsPlaced m
    → Returns (handle_page_fault m addr write (some page)) λ r.
      IsPlaced r.0
      × (get_executable r.0 ≡ get_executable m)
      × (((r.1 ≡ true) × Belongs (get_executable m) addr)
          ⊎ ((r.1 ≡ false) × (¬ Belongs (get_executable m) addr) × (r.2 ≡ [])))
unfolding get_executable
handled_lem m addr write page v =
    Returns-mono _ _ (handle_page_fault m addr write (some page))
      (Returns-both _ _ (handle_page_fault m addr write (some page))
        (handle_page_fault-IsPlaced m addr v page write) (same_program m addr page write v))
      (λ r w. (w.0.0, w.1, elim w.0.1 [ inl p ↦ inl p | inr p ↦ inr (p.0, p.1, p.3) ]))

abbrev pub x64_map : arch.ExecutableMap
x64_map = record {
  Executable = Executable;
  Map = ExecutableMap;
  Call = Call;
  generate_map = new_map;
  get_executable = get_executable;
  get_entry_point = get_entry_point;
  handle_page_fault = handle_page_fault;
  delete_map = delete_map;
  Belongs = Belongs;
  IsLoadable = IsLoadable;
  IsReady = IsPlaced;
  generated = generated_lem;
  handled = handled_lem;
}
