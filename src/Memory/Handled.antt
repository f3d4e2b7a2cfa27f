-- ===== src/Memory/Handled.antt =====
-- Which page faults the kernel handles, for any program that keeps the promises of
-- kernel/src/arch/all/executable-map.hpp.
use alux.Prelude.{
  ℕ, ◌≡◌, refl, Bool, true, false, Option, none, some, List, [], ◌∷◌, LinkedList, Returns, All,
  Returns-mono, arith, ◌>>=◌, ◌⊎◌, inl, inr,
}
use alux.Arch.Program.{ExecutableMap}
use alux.Kernel.{Garbage}
use alux.Memory.PageFault.{Outcome, inside, answer, handle_page_fault}
use alux.Tasks.HoldScope.{Cpu, Entry, entered, exited, construct}
use alux.Tasks.Holding.{IsAlive, construct-destroy, left_again}

module _ (E : ExecutableMap) where
  open E use {Map, Call}

  -- The kernel is as it was, and the map is ready, for the same program.
  abbrev pub IsHandled : Cpu → Map → Cpu × Option (Outcome E) → Type 0
  IsHandled s m (s', none) = ⊥
  IsHandled s m (s', some (m', calls)) =
      (s' ≡ s) × E.IsReady m' × (E.get_executable m' ≡ E.get_executable m)

module _ (E : ExecutableMap) (L : LinkedList Garbage) where
  open E use {Map, Call}

  inside-left_again :
      (s : Cpu) (r : Outcome E) (e : Option Entry)
      → (e >>= left_again L) ≡ some s
      → (e >>= inside E L (some r)) ≡ some (s, some r)
  unfolding inside
  inside-left_again s r none h = cc
  inside-left_again s r (some (entered scope s')) h = ground arith
  inside-left_again s r (some (exited s')) h = cc

  inside-panic :
      (s : Cpu) (e : Option Entry) → (e >>= left_again L) ≡ some s → (e >>= inside E L none) ≡ none
  unfolding inside
  inside-panic s none h = refl
  inside-panic s (some (entered scope s')) h = refl
  inside-panic s (some (exited s')) h = cc

  answered :
      (s : Cpu) (m : Map) (addr : ℕ) (e : Option Entry) (r : Option (Map × Bool × List Call))
      → (e >>= left_again L) ≡ some s
      → Returns r (λ q.
        E.IsReady q.0
        × (E.get_executable q.0 ≡ E.get_executable m)
        × (((q.1 ≡ true) × E.Belongs (E.get_executable m) addr)
            ⊎ ((q.1 ≡ false) × (¬ E.Belongs (E.get_executable m) addr) × (q.2 ≡ []))))
      → (E.Belongs (E.get_executable m) addr
          × Returns (e >>= inside E L (r >>= answer E)) (IsHandled E s m))
        ⊎ (¬ E.Belongs (E.get_executable m) addr) × ((e >>= inside E L (r >>= answer E)) ≡ none)
  unfolding answer
  answered s m addr e none h v = elim v [ ]
  answered s m addr e (some (m', handled, calls)) h v = elim v.2 [
    | inl (b, p) ↦ inl (p, rw (b, inside-left_again s (m', calls) e h) (refl, v.0, v.1))
    | inr (b, p, _) ↦ inr (p, rw b (inside-panic s e h))
  ]

  -- A page fault on a live task, or one that the thread holds, whose program is ready, with a page to
  -- give: where the address belongs to the program `HandlePageFault` returns, its scope leaves the
  -- kernel as it was, and the program stays ready; for any other address, and only there, it panics.
  pub handle_page_fault-IsHandled :
      (s : Cpu) (th : ℕ) (m : Map) (addr : ℕ) (write : Bool) (page : ℕ)
      → IsAlive s th
      → E.IsReady m
      → (E.Belongs (E.get_executable m) addr
          × Returns
              (handle_page_fault E L s (some th) (some m) addr write (some page))
              (IsHandled E s m))
        ⊎ (¬ E.Belongs (E.get_executable m) addr)
          × (handle_page_fault E L s (some th) (some m) addr write (some page) ≡ none)
  unfolding handle_page_fault
  handle_page_fault-IsHandled s th m addr write page a v =
      answered s m addr (construct s (some th)) (E.handle_page_fault m addr write (some page))
        (construct-destroy L s th a.joined a.small a.alive) (E.handled m addr write page v)

  abbrev pub Went : (Cpu → Map → Type 0) → Cpu × Option (Outcome E) → Type 0
  Went Q (s, none) = ⊥
  Went Q (s, some (m, calls)) = Q s m

  -- The faults of a running program are handled one after the other, each with the page that it is
  -- given, and leave the kernel as it was.
  abbrev pub Survives : Cpu → ℕ → Map → List (ℕ × Bool × ℕ) → Type 0
  Survives s th m [] = E.IsReady m
  Survives s th m ((addr, write, page) ∷ faults) =
      Returns (handle_page_fault E L s (some th) (some m) addr write (some page))
        (Went (λ s' m'. (s' ≡ s) × Survives s th m' faults))

  -- A program whose faults are all at its own addresses never makes the kernel panic: on a live task,
  -- or one that the thread holds, every fault in any sequence of them returns, with a page to give to
  -- each, and leaves the kernel as it was; the program stays ready.
  pub faults-Survives :
      (s : Cpu) (th : ℕ) (m : Map) (faults : List (ℕ × Bool × ℕ))
      → IsAlive s th
      → E.IsReady m
      → All (λ f. E.Belongs (E.get_executable m) f.0) faults
      → Survives s th m faults
  faults-Survives s th m [] a v h = v
  faults-Survives s th m ((addr, write, page) ∷ faults) a v h =
      elim (handle_page_fault-IsHandled s th m addr write page a v) [
        | inr (outside, _) ↦ absurd (outside h.0)
        | inl (_, r) ↦
            Returns-mono (IsHandled E s m) _
              (handle_page_fault E L s (some th) (some m) addr write (some page)) r
              (later λ m' a' v' h'. faults-Survives s th m' faults a' v' h')
      ]
    where
      later :
          ((m' : Map)
            → IsAlive s th
            → E.IsReady m'
            → All (λ f. E.Belongs (E.get_executable m') f.0) faults
            → Survives s th m' faults)
          → (q : Cpu × Option (Outcome E)) → IsHandled E s m q
          → Went (λ s' m'. (s' ≡ s) × Survives s th m' faults) q
      later ih (s', none) w = w
      later ih (s', some (m', calls)) w = (w.0, ih m' a w.1 (rw w.2 h.1))
