-- ===== src/Util/Refinement.antt =====
-- A `NoncriticalLock` of kernel/src/util/noncritical-lock.cpp is a lock that serves its callers in
-- order.
use alux.Prelude.{ℕ, ◌≡◌, if◌then◌else◌, some, LinkedList, occurrences, arith}
use alux.Kernel.{Garbage}
use alux.Util.Callers.{World, Reach, history}
use alux.Util.Explained.{view, Reach-Explained}
use alux.Util.FairLock.{FairLock, is_holder, replay}
use alux.Util.Tokens.{Token, free, kept, passed, granted, is_inside, is_waiting, Inv}

-- The fair lock agrees on where the caller is.
abbrev pub Agrees : World → ℕ → FairLock → Type 0
Agrees w c s =
    (is_holder s.holder c ≡ is_inside (w.phases c))
    × (occurrences c s.line ≡ (if is_waiting (w.phases c) then 1 else 0))

module _ (L : LinkedList Garbage) (P : LinkedList ℕ) where
  view-Agrees : {w : World} (t : Token) (c : ℕ) → Inv w t → Agrees w c (view L P t w.lock.queue)
  unfolding occurrences
  view-Agrees free c v = (ground (arith, v.inside c), ground (arith, v.queued c, v.granted c))
  view-Agrees (kept d) c v = (ground (arith, v.inside c), ground (arith, v.queued c, v.granted c))
  view-Agrees (passed d n) c v =
      (ground (arith, v.inside c), ground (arith, v.queued c, v.granted c, v.next c))
  view-Agrees (granted d) c v =
      (ground (arith, v.inside c), ground (arith, v.queued c, v.granted c))

  -- Whatever steps the callers made, a lock that serves them first come, first served can have made
  -- the same moves: its replay of the run's events, in which callers begin to wait, get the lock and
  -- give it back, meets no violation; it ends with the lock at the caller that is inside, and with
  -- exactly the callers that wait in its line, once each.
  pub replay-Agrees :
      {w : World} (r : Reach L P w) (c : ℕ)
      → (s : FairLock) × (replay (history L P r) ≡ some s) × Agrees w c s
  replay-Agrees {w} r c =
      let (t, v, f) = Reach-Explained L P r in (view L P t w.lock.queue, f, view-Agrees t c v)
