-- ===== src/Prelude/Counts.antt =====
-- How many of a list of addresses pass a test.
use Prim.Native.Nat.{ℕ, ◌+◌, ◌≤◌, ◌<◌}
use mathlib.Core.Path.{◌≡◌, refl}
use mathlib.Core.List.{List, [], ◌∷◌}
use mathlib.Core.Bool.{Bool, false}
use native.Mathlib.Omega.{arith}
use mathlib.Core.Logic.{◌≢◌}
use alux.Prelude.Lists.{length}
use alux.Prelude.Sums.{occurrences}
use alux.Prelude.Tests.{if◌then◌else◌}

abbrev pub bit : Bool → ℕ
bit b = if b then 1 else 0

-- How many of the addresses pass a test
unfoldable pub count : (ℕ → Bool) → List ℕ → ℕ
count p [] = 0
count p (x ∷ xs) = bit (p x) + count p xs

pub count-le : (p : ℕ → Bool) (xs : List ℕ) → count p xs ≤ length xs
unfolding count
count-le p [] = omega arith
count-le p (x ∷ xs) = ground (arith, count-le p xs)

pub le-count : (p : ℕ → Bool) (x : ℕ) (xs : List ℕ) → 0 < occurrences x xs → bit (p x) ≤ count p xs
unfolding count occurrences
le-count p x [] h = absurd (omega arith)
le-count p x (y ∷ ys) h = ground (arith, le-count p x ys)

count_absent :
    (p q : ℕ → Bool) (x : ℕ) (xs : List ℕ)
    → ((y : ℕ) → y ≢ x → q y ≡ p y)
    → occurrences x xs ≡ 0
    → count q xs ≡ count p xs
unfolding count occurrences
count_absent p q x [] e h = refl
count_absent p q x (y ∷ ys) e h = ground (arith, e y, count_absent p q x ys e)

pub count-lt :
    (p : ℕ → Bool) (x : ℕ) (xs : List ℕ)
    → 0 < occurrences x xs
    → p x ≡ false
    → count p xs < length xs
unfolding count occurrences
count-lt p x [] h e = absurd (omega arith)
count-lt p x (y ∷ ys) h e = ground (arith, count-lt p x ys, count-le p ys)

-- Where one test changes.
pub count_once :
    (p q : ℕ → Bool) (x : ℕ) (xs : List ℕ)
    → ((y : ℕ) → y ≢ x → q y ≡ p y)
    → occurrences x xs ≡ 1
    → count q xs + bit (p x) ≡ count p xs + bit (q x)
unfolding count occurrences
count_once p q x [] e h = absurd (omega arith)
count_once p q x (y ∷ ys) e h = ground (arith, e y, count_once p q x ys e, count_absent p q x ys e)

-- Where none does.
pub count_same : (p q : ℕ → Bool) (xs : List ℕ) → ((y : ℕ) → q y ≡ p y) → count q xs ≡ count p xs
unfolding count
count_same p q [] e = refl
count_same p q (y ∷ ys) e = ground (arith, e y, count_same p q ys e)
