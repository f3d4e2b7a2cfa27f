-- ===== src/Prelude/Bags.antt =====
-- Collections of addresses up to their order.
use Prim.Native.Nat.{ℕ, ◌-◌}
use mathlib.Core.Path.{◌≡◌}
use mathlib.Core.List.{List, [], ◌∷◌}
use mathlib.Core.Quot
use mathlib.Core.Quot.{Quot, Quot-set}
use native.Mathlib.Nat.{ℕ_set}
use native.Mathlib.Omega.{arith}
use alux.Prelude.Tests.{◌==◌, if◌then◌else◌}
use alux.Prelude.Sums.{occurrences}

-- Two lists hold the same addresses, each as often.
abbrev pub SameItems : List ℕ → List ℕ → Type 0
SameItems xs ys = (x : ℕ) → occurrences x xs ≡ occurrences x ys

abbrev pub Bag : Type 0
Bag = Quot SameItems

abbrev pub bag_of : List ℕ → Bag
bag_of xs = Quot.mk xs

pub same_bag : {xs ys : List ℕ} → SameItems xs ys → bag_of xs ≡ bag_of ys
same_bag h = Quot.sound h

-- How often an address is in a bag.
unfoldable pub units : ℕ → Bag → ℕ
units x = Quot.lift ℕ_set (occurrences x) (λ xs ys h. h x)

pub SameItems-cons : (x : ℕ) (xs ys : List ℕ) → SameItems xs ys → SameItems (x ∷ xs) (x ∷ ys)
unfolding occurrences
SameItems-cons x xs ys h y = ground (arith, h y)

unfoldable pub put : ℕ → Bag → Bag
put x =
    Quot.lift Quot-set (λ xs. bag_of (x ∷ xs)) (λ xs ys h. Quot.sound (SameItems-cons x xs ys h))

unfoldable pub erase : ℕ → List ℕ → List ℕ
erase x [] = []
erase x (y ∷ ys) = if x == y then ys else y ∷ erase x ys

pub occurrences-erase :
    (x y : ℕ) (xs : List ℕ)
    → occurrences y (erase x xs) ≡ occurrences y xs - (if x == y then 1 else 0)
unfolding erase occurrences
occurrences-erase x y [] = ground arith
occurrences-erase x y (z ∷ zs) = ground (arith, occurrences-erase x y zs)

pub SameItems-erase :
    (x : ℕ) (xs ys : List ℕ) → SameItems xs ys → SameItems (erase x xs) (erase x ys)
SameItems-erase x xs ys h y = omega (arith, h y, occurrences-erase x y xs, occurrences-erase x y ys)

-- One unit less, if there is one.
unfoldable pub take_out : ℕ → Bag → Bag
take_out x =
    Quot.lift Quot-set (λ xs. bag_of (erase x xs))
      (λ xs ys h. Quot.sound (SameItems-erase x xs ys h))
