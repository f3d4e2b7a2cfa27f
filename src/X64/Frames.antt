-- ===== src/X64/Frames.antt =====
-- The physical frames of written pages: which of them the destructor of the map frees.
use alux.Prelude.{
  ℕ, zero, suc, ◌+◌, ◌-◌, ◌/◌, ◌%◌, ◌<◌, ◌≤◌, ◌≡◌, ◌≢◌, ◌⊎◌, inl, inr, Bool, true, Bool-cases, ◌==◌,
  some, List, [], ◌∷◌, ◌++◌, All, Returns, Returns-mono, Returns-both, Returns->>=, subst, arith,
  ◌>>=◌,
}
use alux.X64.Image.{sector_size}
use alux.X64.Sectors.{
  ExecutableMap, Sector, Call, free_phys, start_addr, page_size, handle_page_fault, delete_map,
  free_pages, free_sector, free_sectors,
}
use alux.X64.Faults.{IsPlaced, InProgram, handle_page_fault-IsPlaced}

-- The log has the call.
abbrev pub Has : Call → List Call → Type 0
Has c [] = ⊥
Has c (d ∷ ds) = (d ≡ c) ⊎ Has c ds

Has-left : (c : Call) (xs ys : List Call) → Has c xs → Has c (xs ++ ys)
Has-left c [] ys h = elim h [ ]
Has-left c (x ∷ xs) ys (inl e) = inl e
Has-left c (x ∷ xs) ys (inr h) = inr (Has-left c xs ys h)

Has-right : (c : Call) (xs ys : List Call) → Has c ys → Has c (xs ++ ys)
Has-right c [] ys h = h
Has-right c (x ∷ xs) ys h = inr (Has-right c xs ys h)

free_pages-Has :
    (n j p : ℕ) (w : ℕ → ℕ) → j ≤ p → p < j + n → w p ≢ 0 → Has (free_phys (w p)) (free_pages n j w)
unfolding free_pages
free_pages-Has zero j p w lo hi ne = absurd (omega arith)
free_pages-Has (suc n) j p w lo hi ne = elim (Bool-cases (j == p)) [
  | inl e ↦ let same : j ≡ p = ground arith in rw same (ground arith)
  | inr e ↦ ground (arith, free_pages-Has n (j + 1) p w)
]

free_sector-Has :
    (s : Sector) (j : ℕ)
    → s.mode ≡ 2
    → j < 512
    → s.writables j ≢ 0
    → Has (free_phys (s.writables j)) (free_sector s)
unfolding free_sector
free_sector-Has s j mode fits ne =
    rw mode (free_pages-Has 512 0 j s.writables (omega arith) (omega arith) ne)

free_sectors-Has :
    (n i p j : ℕ) (ss : ℕ → Sector)
    → i ≤ p
    → p < i + n
    → (ss p).mode ≡ 2
    → j < 512
    → (ss p).writables j ≢ 0
    → Has (free_phys ((ss p).writables j)) (free_sectors n i ss)
unfolding free_sectors
free_sectors-Has zero i p j ss lo hi mode fits ne = absurd (omega arith)
free_sectors-Has (suc n) i p j ss lo hi mode fits ne = elim (Bool-cases (i == p)) [
  | inl e ↦
      let same : i ≡ p = ground arith in
      rw same (Has-left _ _ _ (free_sector-Has (ss p) j mode fits ne))
  | inr e ↦
      Has-right _ _ _ (free_sectors-Has n (i + 1) p j ss (ground arith) (ground arith) mode fits ne)
]

-- No frame of the map is `f`.
abbrev pub IsUnused : ExecutableMap → ℕ → Type 0
IsUnused m f = (i j : ℕ) → (m.sectors i).writables j ≢ f

free_pages-All :
    (n j f : ℕ) (w : ℕ → ℕ) → ((i : ℕ) → w i ≢ f) → All (λ c. c ≢ free_phys f) (free_pages n j w)
unfolding free_pages
free_pages-All zero j f w h = tt
free_pages-All (suc n) j f w h = ground (arith, h j, free_pages-All n (j + 1) f w h)

All-append : (Q : Call → Type 0) (xs ys : List Call) → All Q xs → All Q ys → All Q (xs ++ ys)
All-append Q [] ys h k = k
All-append Q (x ∷ xs) ys h k = (h.0, All-append Q xs ys h.1 k)

free_sector-All :
    (s : Sector) (f : ℕ)
    → ((j : ℕ) → s.writables j ≢ f)
    → All (λ c. c ≢ free_phys f) (free_sector s)
unfolding free_sector
free_sector-All s f h = elim (Bool-cases (s.mode == 2)) [
  | inl e ↦ rw e (free_pages-All 512 0 f s.writables h)
  | inr e ↦ rw e tt
]

free_sectors-All :
    (n i f : ℕ) (ss : ℕ → Sector)
    → ((i j : ℕ) → (ss i).writables j ≢ f)
    → All (λ c. c ≢ free_phys f) (free_sectors n i ss)
unfolding free_sectors
free_sectors-All zero i f ss h = tt
free_sectors-All (suc n) i f ss h =
    All-append _ _ _ (free_sector-All (ss i) f (h i)) (free_sectors-All n (i + 1) f ss h)

delete_map-Has :
    (m : ExecutableMap) (i j : ℕ)
    → i < m.sector_count
    → (m.sectors i).mode ≡ 2
    → j < 512
    → (m.sectors i).writables j ≢ 0
    → Has (free_phys ((m.sectors i).writables j)) (delete_map m)
unfolding delete_map
delete_map-Has m i j h mode fits ne =
    free_sectors-Has m.sector_count 0 i j m.sectors (omega arith) (omega arith) mode fits ne

delete_map-All :
    (m : ExecutableMap) (f : ℕ) → IsUnused m f → All (λ c. c ≢ free_phys f) (delete_map m)
unfolding delete_map
delete_map-All m f h = free_sectors-All m.sector_count 0 f m.sectors h

abbrev Handled : Type 0
Handled = ExecutableMap × Bool × List Call

module _ (m : ExecutableMap) (addr : ℕ) (v : IsPlaced m) where
  abbrev sector_index : ℕ
  sector_index = (addr - start_addr) / sector_size

  abbrev page_index : ℕ
  page_index = (addr - start_addr) % sector_size / page_size

  -- The frame `f` is in no place of the map but the one for `addr`.
  abbrev IsOnlyHere : ℕ → ExecutableMap → Type 0
  IsOnlyHere f m' =
      (i j : ℕ) → (m'.sectors i).writables j ≡ f → (i ≡ sector_index) × (j ≡ page_index)

  -- What a write fault leaves: the map is placed as before, and the frame `page` at its place.
  abbrev Written : ℕ → Handled → Type 0
  Written page r =
      (r.0.sector_count ≡ m.sector_count)
      × (r.0.executable ≡ m.executable)
      × ((r.0.sectors sector_index).mode ≡ 2)
      × ((r.0.sectors sector_index).writables page_index ≡ page)

  write-Written :
      (page : ℕ)
      → InProgram m addr
      → Returns (handle_page_fault m addr true (some page)) (Written page)
  unfolding handle_page_fault
  write-Written page inside = ground arith

  write-IsOnlyHere :
      (page : ℕ)
      → IsUnused m page
      → page ≢ 0
      → InProgram m addr
      → Returns (handle_page_fault m addr true (some page)) (λ r. IsOnlyHere page r.0)
  unfolding handle_page_fault
  write-IsOnlyHere page unused ne inside = ground arith

  write-IsUnused :
      (page other : ℕ)
      → IsOnlyHere page m
      → page ≢ 0
      → other ≢ page
      → InProgram m addr
      → Returns (handle_page_fault m addr true (some other)) (λ r. IsUnused r.0 page)
  unfolding handle_page_fault
  write-IsUnused page other here ne ne' inside = ground arith

  -- The destructor frees the frame of a write fault inside the program, if nothing came after it.
  pub written_freed :
      (page : ℕ)
      → InProgram m addr
      → page ≢ 0
      → Returns
          (handle_page_fault m addr true (some page))
          (λ r. Has (free_phys page) (delete_map r.0))
  written_freed page inside ne = Returns-mono (Written page) _ _ (write-Written page inside) λ r w.
      subst (λ f. Has (free_phys f) (delete_map r.0)) w.3
        (delete_map-Has r.0 sector_index page_index (omega (arith, v.count, w.0)) w.2 (omega arith)
          (rw w.3 ne))

-- When two threads have a write fault at one address inside the program and both calls reach the
-- handler, one after the other, both return, and the frame that the first of them mapped is lost:
-- the destructor never frees it. The first frame is not in use before, and is not the second.
pub write_twice_leaks :
    (m : ExecutableMap) (addr page other : ℕ)
    → IsPlaced m
    → InProgram m addr
    → IsUnused m page
    → page ≢ 0
    → other ≢ page
    → Returns
        (handle_page_fault m addr true (some page) >>= λ r.
          handle_page_fault r.0 addr true (some other))
        (λ r. All (λ c. c ≢ free_phys page) (delete_map r.0))
write_twice_leaks m addr page other v inside unused ne ne' =
    Returns->>= First _ (handle_page_fault m addr true (some page)) _ first_call λ r w.
      Returns-mono (λ r'. IsUnused r'.0 page) _ _
        (write-IsUnused r.0 addr w.0 page other w.1.0 ne ne' (rw w.1.1.1 inside))
        (λ r' u. delete_map-All r'.0 page u)
  where
    First : Handled → Type 0
    First r = IsPlaced r.0 × (IsOnlyHere m addr v page r.0 × Written m addr v page r)

    first_call : Returns (handle_page_fault m addr true (some page)) First
    first_call =
        Returns-both (λ r. IsPlaced r.0)
          (λ r. IsOnlyHere m addr v page r.0 × Written m addr v page r) _
          (Returns-mono _ (λ r. IsPlaced r.0) (handle_page_fault m addr true (some page))
            (handle_page_fault-IsPlaced m addr v page true) (λ r h. h.0))
          (Returns-both (λ r. IsOnlyHere m addr v page r.0) (Written m addr v page) _
            (write-IsOnlyHere m addr v page unused ne inside) (write-Written m addr v page inside))
