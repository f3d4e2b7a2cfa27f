-- ===== src/Util/Callers.antt =====
-- Callers of a `NoncriticalLock` of kernel/src/util/noncritical-lock.cpp, with their steps in any
-- order.
use alux.Prelude.{
  ℕ, ◌≡◌, Bool, false, if◌then◌else◌, update, Option, none, some, List, [], ◌∷◌, LinkedList,
}
use alux.Kernel.{Kernel, Garbage}
use alux.Util.FairLock.{Event, queues, acquires, releases}
use alux.Util.Lock.{NoncriticalLock, new_lock, seize, shift_next, hand_over, wake, finish_seize}

-- Where a caller is: outside of the lock, in `Seize` after its first section, between `Seize` and
-- `Release`, or in `Release` after its first section, about to write `owner` of `next`, or after
-- that, about to wake the thread of `next`.
pub data Phase : Type 0 where
  outside waiting inside : Phase
  releasing : (next : ℕ) → Phase
  waking : (thread : Option ℕ) → Phase

-- The kernel, the lock, and the callers by the addresses of their `WaitingThread` objects.
pub record World : Type 0 where
  pub kernel : Kernel
  pub lock : NoncriticalLock
  pub phases : ℕ → Phase

abbrev pub move : World → ℕ → Phase → World
move w c p = record w { phases = update w.phases c p }

abbrev pub after_shift : Option ℕ → Phase
after_shift none = outside
after_shift (some next) = releasing next

module _ (L : LinkedList Garbage) (P : LinkedList ℕ) where
  pub data Reach : World → Type 0 where
    start : (k : Kernel) → Reach (record { kernel = k; lock = new_lock; phases = λ c. outside })
    seizes :
        {w : World}
        → Reach w
        → (c cpu : ℕ) (initialized : Bool) → w.phases c ≡ outside
        → (k : Kernel) (l : NoncriticalLock) (taken : Bool)
        → seize P false w.kernel w.lock cpu initialized c ≡ some (k, (l, taken))
        → Reach (move (record w { kernel = k; lock = l }) c (if taken then inside else waiting))
    enters :
        {w : World}
        → Reach w
        → (c : ℕ) → w.phases c ≡ waiting
        → (k : Kernel) → finish_seize L w.kernel w.lock c ≡ some k
        → Reach (move (record w { kernel = k }) c inside)
    leaves :
        {w : World}
        → Reach w
        → (c : ℕ) → w.phases c ≡ inside
        → Reach (
            move
              (record w { lock = (shift_next P w.lock).0 })
              c
              (after_shift (shift_next P w.lock).1))
    grants :
        {w : World}
        → Reach w
        → (c next : ℕ) → w.phases c ≡ releasing next
        → Reach
            (move (record w { lock = hand_over w.lock next }) c (waking (w.lock.links next).thread))
    wakes :
        {w : World}
        → Reach w
        → (c : ℕ) (th : Option ℕ) → w.phases c ≡ waking th
        → (k : Kernel) → wake w.kernel th ≡ some k
        → Reach (move (record w { kernel = k }) c outside)
    -- Any other step of the kernel, which does not touch the lock.
    others : {w : World} → Reach w → (k : Kernel) → Reach (record w { kernel = k })

  -- The events of a run, the last one first.
  unfoldable pub history : {w : World} → Reach w → List Event
  history (start k) = []
  history (seizes r c cpu init e k l taken q) = (if taken then acquires c else queues c) ∷ history r
  history (enters r c e k q) = acquires c ∷ history r
  history (leaves r c e) = releases c ∷ history r
  history (grants r c n e) = history r
  history (wakes r c th e k q) = history r
  history (others r k) = history r
