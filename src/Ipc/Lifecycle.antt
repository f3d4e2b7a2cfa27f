-- ===== src/Ipc/Lifecycle.antt =====
-- The life of a terminal under `Retain`, `Release` and `Sever` in any order: callers release what
-- they retained, and `Sever` is called, as `Port::Sever` does, by one that retains the terminal.
use alux.Prelude.{
  ℕ, ◌+◌, ◌-◌, ◌^◌, ◌<◌, ◌≡◌, not, ◌&&◌, ◌==◌, if◌then◌else◌, none, some, List, [], ◌∷◌, ◌++◌,
  LinkedList, Returns, arith,
}
use alux.Kernel.{Kernel, Garbage, task_garbage, thread_garbage, terminal_garbage}
use alux.Scheduler.Collector.{throw_away}
use alux.Ipc.Terminals.{is_some, new_terminal, retain, release, sever}

-- How often terminal `i` stands in the collector's list.
unfoldable pub tally : ℕ → List Garbage → ℕ
tally i [] = 0
tally i (terminal_garbage j ∷ gs) = (if j == i then 1 else 0) + tally i gs
tally i (task_garbage j ∷ gs) = tally i gs
tally i (thread_garbage j ∷ gs) = tally i gs

tally-add :
    (i j : ℕ) (gs : List Garbage)
    → tally i (gs ++ terminal_garbage j ∷ []) ≡ tally i gs + (if j == i then 1 else 0)
unfolding tally
tally-add i j [] = ground arith
tally-add i j (terminal_garbage x ∷ gs) = omega (arith, tally-add i j gs)
tally-add i j (task_garbage x ∷ gs) = tally-add i j gs
tally-add i j (thread_garbage x ∷ gs) = tally-add i j gs

module _ (L : LinkedList Garbage) (i : ℕ) where
  -- The states of the kernel and the number of references to terminal `i` that callers have.
  pub data Reach : Kernel → ℕ → Type 0 where
    start :
        (k : Kernel) (port : ℕ)
        → k.terminals i ≡ new_terminal (some port)
        → tally i k.garbage ≡ 0
        → Reach k 1
    retained :
        {k : Kernel} {refs : ℕ}
        → Reach k refs
        → refs + 1 < 2 ^ 31
        → Reach (retain k i).0 (refs + (if (retain k i).1 then 1 else 0))
    released : {k : Kernel} {refs : ℕ} → Reach k refs → 0 < refs → Reach (release L k i) (refs - 1)
    severed :
        {k k' : Kernel} {refs : ℕ} → Reach k refs → 0 < refs → sever k i ≡ some k' → Reach k' refs

  pub record IsExact (k : Kernel) (refs : ℕ) : Type 0 where
    pub exact : (k.terminals i).retain_count ≡ refs
    pub small : refs < 2 ^ 31
    pub thrown :
        tally i k.garbage ≡ (if (refs == 0) && not (is_some (k.terminals i).port) then 1 else 0)

  -- In every reachable state the retain count is the number of references, and the terminal has been
  -- thrown away exactly once if it is severed and has no reference left, and never otherwise.
  pub Reach-IsExact : {k : Kernel} {refs : ℕ} → Reach k refs → IsExact k refs
  unfolding new_terminal retain release sever throw_away
  Reach-IsExact (start k port e t) = ground arith
  Reach-IsExact (retained r h) = let v = Reach-IsExact r in ground arith
  Reach-IsExact (released {k} r h) =
      let v = Reach-IsExact r in
      ground (arith, L.add-back k.garbage (terminal_garbage i), tally-add i i k.garbage)
  Reach-IsExact (severed r h e) = let v = Reach-IsExact r in ground arith

  -- The assertion in `Sever` holds in every reachable state in which someone retains the terminal.
  pub sever-Returns :
      {k : Kernel} {refs : ℕ}
      → Reach k refs
      → 0 < refs
      → Returns (sever k i) (λ k'. (k'.terminals i).port ≡ none)
  unfolding sever
  sever-Returns r h = let v = Reach-IsExact r in ground arith
