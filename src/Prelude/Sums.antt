-- ===== src/Prelude/Sums.antt =====
-- Occurrences in a list of addresses, and sums of a measure of the objects at those addresses.
use Prim.Native.Nat.{ℕ, ◌+◌, ◌≤◌, ◌<◌, compare, Ordering}
use mathlib.Core.Path.{◌≡◌, refl}
use mathlib.Core.List.{List, [], ◌∷◌}
use native.Mathlib.Omega.{arith}
use alux.Prelude.Stores.{update}

unfoldable pub occurrences : ℕ → List ℕ → ℕ
occurrences x [] = 0
occurrences x (y ∷ ys) = (elim (compare x y) [ Ordering.eq ↦ 1 | _ ↦ 0 ]) + occurrences x ys

module _ {ℓ} {A : Type ℓ} where
  unfoldable pub sum_by : (A → ℕ) → (ℕ → A) → List ℕ → ℕ
  sum_by w f [] = 0
  sum_by w f (x ∷ xs) = w (f x) + sum_by w f xs

  pub sum-update_absent :
      (w : A → ℕ) (f : ℕ → A) (x : ℕ) (a : A) (xs : List ℕ)
      → occurrences x xs ≡ 0
      → sum_by w (update f x a) xs ≡ sum_by w f xs
  unfolding sum_by occurrences
  sum-update_absent w f x a [] h = refl
  sum-update_absent w f x a (y ∷ ys) h = ground (arith, sum-update_absent w f x a ys)

  pub sum-update_once :
      (w : A → ℕ) (f : ℕ → A) (x : ℕ) (a : A) (xs : List ℕ)
      → occurrences x xs ≡ 1
      → sum_by w (update f x a) xs + w (f x) ≡ sum_by w f xs + w a
  unfolding sum_by occurrences
  sum-update_once w f x a [] h = absurd (omega arith)
  sum-update_once w f x a (y ∷ ys) h =
      ground (arith, sum-update_once w f x a ys, sum-update_absent w f x a ys)

  pub le-sum_by :
      (w : A → ℕ) (f : ℕ → A) (x : ℕ) (xs : List ℕ) → 0 < occurrences x xs → w (f x) ≤ sum_by w f xs
  unfolding sum_by occurrences
  le-sum_by w f x [] h = absurd (omega arith)
  le-sum_by w f x (y ∷ ys) h = ground (arith, le-sum_by w f x ys)

-- One occurrence less.
take_out : ℕ → List ℕ → List ℕ
take_out x [] = []
take_out x (y ∷ ys) = elim (compare x y) [ Ordering.eq ↦ ys | _ ↦ y ∷ take_out x ys ]

occurrences-take_out :
    (x y : ℕ) (ys : List ℕ)
    → 0 < occurrences x ys
    → occurrences y (x ∷ take_out x ys) ≡ occurrences y ys
unfolding occurrences take_out
occurrences-take_out x y [] h = absurd (omega arith)
occurrences-take_out x y (z ∷ zs) h = ground (arith, occurrences-take_out x y zs)

module _ {ℓ} {A : Type ℓ} where
  sum-take_out :
      (w : A → ℕ) (f : ℕ → A) (x : ℕ) (ys : List ℕ)
      → 0 < occurrences x ys
      → sum_by w f (x ∷ take_out x ys) ≡ sum_by w f ys
  unfolding sum_by occurrences take_out
  sum-take_out w f x [] h = absurd (omega arith)
  sum-take_out w f x (z ∷ zs) h = ground (arith, sum-take_out w f x zs)

  -- A sum depends on the occurrences alone.
  pub sum-occurrences :
      (w : A → ℕ) (f : ℕ → A) (xs ys : List ℕ)
      → ((y : ℕ) → occurrences y xs ≡ occurrences y ys)
      → sum_by w f xs ≡ sum_by w f ys
  unfolding sum_by occurrences
  sum-occurrences w f [] [] h = refl
  sum-occurrences w f [] (y ∷ ys) h = absurd (ground (arith, h y))
  sum-occurrences w f (x ∷ xs) ys h =
      let here : 0 < occurrences x ys = ground (arith, h x) in
      omega (
        arith,
        sum-take_out w f x ys here,
        sum-occurrences w f xs (take_out x ys)
            (λ y. ground (arith, h y, occurrences-take_out x y ys here)),
      )
