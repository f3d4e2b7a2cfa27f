-- ===== src/Util/FairLock.antt =====
-- What a lock promises that serves its callers in the order in which they came.
use alux.Prelude.{
  ℕ, Bool, true, false, not, ◌&&◌, ◌==◌, if◌then◌else◌, Option, none, some, List, [], ◌∷◌, ◌++◌,
  ensure, ◌>>=◌, ◌>>◌,
}

-- A caller begins to wait, gets the lock, or gives it back.
pub data Event : Type 0 where
  queues acquires releases : ℕ → Event

-- The caller that has the lock, and those that wait, the first one first.
pub record FairLock : Type 0 where
  pub holder : Option ℕ
  pub line : List ℕ

abbrev pub is_none : Option ℕ → Bool
is_none none = true
is_none (some a) = false

abbrev pub is_nil : List ℕ → Bool
is_nil [] = true
is_nil (x ∷ xs) = false

-- Who may get a free lock: the first in line, or anyone where nobody waits.
abbrev pub next_line : ℕ → List ℕ → Option (List ℕ)
next_line c [] = some []
next_line c (d ∷ ds) = if d == c then some ds else none

abbrev pub is_holder : Option ℕ → ℕ → Bool
is_holder none c = false
is_holder (some d) c = d == c

-- `none` is a violation.
unfoldable pub serve : FairLock → Event → Option FairLock
serve s (queues c) =
    ensure (not (is_none s.holder && is_nil s.line)) >> some (record s { line = s.line ++ c ∷ [] })
serve s (acquires c) =
    ensure (is_none s.holder)
    >> (next_line c s.line >>= λ l. some (record { holder = some c; line = l }))
serve s (releases c) = ensure (is_holder s.holder c) >> some (record s { holder = none })

abbrev pub idle : FairLock
idle = record { holder = none; line = [] }

-- The events from the last to the first.
unfoldable pub replay : List Event → Option FairLock
replay [] = some idle
replay (e ∷ es) = replay es >>= λ s. serve s e
