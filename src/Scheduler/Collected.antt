-- ===== src/Scheduler/Collected.antt =====
-- In which order the collector of kernel/src/scheduler/garbage-collector.cpp deallocates.
use alux.Prelude.{ℕ, ◌≡◌, Bool, none, some, List, [], ◌∷◌, ◌++◌, LinkedList, IdMap}
use alux.Kernel.{Kernel, Garbage}
use alux.Scheduler.Collector.{throw_away}
use alux.Scheduler.Main.{main_round}
use alux.Scheduler.Switch.{Outcome, switch}

-- What a list has past as many entries as another has.
unfoldable pub past : List Garbage → List Garbage → List Garbage
past [] hs = hs
past (g ∷ gs) [] = []
past (g ∷ gs) (h ∷ hs) = past gs hs

module _ (L : LinkedList Garbage) (P : LinkedList ℕ) (M : IdMap) where
  -- The object that a round of the collector's loop takes off its list to deallocate it.
  abbrev pub taken : Kernel → List Garbage
  taken k = elim (L.shift k.garbage) [ none ↦ [] | some (obj, rest) ↦ obj ∷ [] ]

  -- What is left on the list for the next round.
  abbrev pub left : Kernel → List Garbage
  left k = elim (L.shift k.garbage) [ none ↦ [] | some (obj, rest) ↦ rest ]

  -- The kernel from a state on, with the objects that the collector has deallocated since, in `log`,
  -- and those that have been thrown away since, in `thrown`: by a call of `ThrowAway`, or by what a
  -- round of the collector or a switch does, which is what it adds to the list. Other code, which throws
  -- nothing away by itself, leaves the list as it is.
  pub data Cleans (k0 : Kernel) : Kernel → (log thrown : List Garbage) → Type 0 where
    start : Cleans k0 k0 [] []
    throws :
        {k : Kernel} {log thrown : List Garbage}
        → Cleans k0 k log thrown
        → (obj : Garbage) → Cleans k0 (throw_away L k obj) log (thrown ++ obj ∷ [])
    collects :
        {k : Kernel} {log thrown : List Garbage}
        → Cleans k0 k log thrown
        → (stack : List ℕ) (r : Kernel × Bool) → main_round L P M k stack ≡ some r
        → Cleans k0 r.0 (log ++ taken k) (thrown ++ past (left k) r.0.garbage)
    switches :
        {k : Kernel} {log thrown : List Garbage}
        → Cleans k0 k log thrown
        → (cpu now : ℕ) (scale : ℕ → ℕ) (r : Kernel × Outcome) → switch L P k cpu now scale ≡ some r
        → Cleans k0 r.0 log (thrown ++ past k.garbage r.0.garbage)
    others :
        {k : Kernel} {log thrown : List Garbage}
        → Cleans k0 k log thrown
        → (k' : Kernel) → k'.garbage ≡ k.garbage
        → Cleans k0 k' log thrown
