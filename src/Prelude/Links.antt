-- ===== src/Prelude/Links.antt =====
-- What the kernel relies on of `ansa::LinkedList`, which is not in the repository. A list is known
-- by its entries in the order of iteration, from `GetStart` to `GetEnd`.
use Prim.Native.Nat.{ℕ, ◌+◌, ◌-◌}
use mathlib.Core.Path.{◌≡◌}
use mathlib.Core.Option.{Option, none, some}
use mathlib.Core.List.{List, [], ◌∷◌, ◌++◌}
use alux.Prelude.Tests.{◌==◌, if◌then◌else◌}
use alux.Prelude.Sums.{occurrences}

pub record LinkedList {ℓ} (A : Type ℓ) : Type ℓ where
  pub add : List A → A → List A
  pub remove : List A → A → List A
  pub shift : List A → Option (A × List A)
  -- `Add` puts an entry at the back.
  pub add-back : (xs : List A) (x : A) → add xs x ≡ xs ++ x ∷ []
  -- `Remove` unlinks an entry, here the first with its value.
  pub remove-head : (xs : List A) (x : A) → remove (x ∷ xs) x ≡ xs
  pub remove-tail : (x y : A) (xs : List A) → ¬ (y ≡ x) → remove (y ∷ xs) x ≡ y ∷ remove xs x
  -- `Shift` takes the entry at the front; on an empty list it gives NULL.
  pub shift-nil : shift [] ≡ none
  pub shift-cons : (x : A) (xs : List A) → shift (x ∷ xs) ≡ some (x, xs)

-- What it relies on of the maps of `anidmap`, which are not in the repository either: `PoolIdMap` and
-- `StepIdMap` over `HashMap`. A map is the sequence in which a loop over its buckets meets its
-- entries. `add` gives the new entry's identifier, or `none` where no identifier is left.
pub record IdMap : Type 0 where
  pub add : List ℕ → ℕ → Option (ℕ × List ℕ)
  pub remove : List ℕ → ℕ → List ℕ
  pub occurrences-add :
      (xs : List ℕ) (x i : ℕ) (ys : List ℕ) (y : ℕ)
      → add xs x ≡ some (i, ys)
      → occurrences y ys ≡ occurrences y xs + (if x == y then 1 else 0)
  pub occurrences-remove :
      (xs : List ℕ) (x y : ℕ)
      → occurrences y (remove xs x) ≡ occurrences y xs - (if x == y then 1 else 0)
