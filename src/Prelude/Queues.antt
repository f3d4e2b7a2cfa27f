-- ===== src/Prelude/Queues.antt =====
-- What the laws of a linked list say of the entries that a list holds.
use Prim.Native.Nat.{ℕ, ◌+◌, ◌<◌}
use mathlib.Core.Path.{◌≡◌, ap, subst}
use mathlib.Core.Logic.{inl, inr}
use mathlib.Core.Bool.{Bool, true}
use mathlib.Core.List.{List, [], ◌∷◌, ◌++◌}
use mathlib.Core.Option.{Option, none, some}
use native.Mathlib.Omega.{arith}
use alux.Prelude.Tests.{◌==◌, if◌then◌else◌, Bool-cases}
use alux.Prelude.Sums.{occurrences}
use alux.Prelude.Lists.{All}
use alux.Prelude.Links.{LinkedList}

-- The first entry that passes a test.
unfoldable pub first : (ℕ → Bool) → List ℕ → Option ℕ
first p [] = none
first p (x ∷ xs) = if p x then some x else first p xs

pub occurrences-first :
    (p : ℕ → Bool) (xs : List ℕ) (x : ℕ)
    → first p xs ≡ some x
    → (0 < occurrences x xs) × (p x ≡ true)
unfolding first occurrences
occurrences-first p [] x e = cc
occurrences-first p (y ∷ ys) x e = elim (Bool-cases (p y)) [
  | inl h ↦ ground arith
  | inr h ↦ ground (arith, occurrences-first p ys x)
]

pub All-at {ℓ} : (Q : ℕ → Type ℓ) (x : ℕ) (xs : List ℕ) → All Q xs → 0 < occurrences x xs → Q x
unfolding occurrences
All-at Q x [] v h = absurd (omega arith)
All-at Q x (y ∷ ys) v h = elim (Bool-cases (x == y)) [
  | inl e ↦ subst Q (ground arith) v.0
  | inr e ↦ All-at Q x ys v.1 (ground arith)
]

pub All-of {ℓ} : (Q : ℕ → Type ℓ) (xs : List ℕ) → ((x : ℕ) → 0 < occurrences x xs → Q x) → All Q xs
unfolding occurrences
All-of Q [] h = tt
All-of Q (x ∷ xs) h = (h x (ground arith), All-of Q xs (λ y e. h y (ground arith)))

pub All-add {ℓ} : (Q : ℕ → Type ℓ) (x : ℕ) (xs : List ℕ) → All Q xs → Q x → All Q (xs ++ x ∷ [])
All-add Q x [] v h = (h, tt)
All-add Q x (y ∷ ys) v h = (v.0, All-add Q x ys v.1 h)

pub occurrences-append :
    (x y : ℕ) (xs : List ℕ)
    → occurrences y (xs ++ x ∷ []) ≡ occurrences y xs + (if x == y then 1 else 0)
unfolding occurrences
occurrences-append x y [] = ground arith
occurrences-append x y (z ∷ zs) = omega (arith, occurrences-append x y zs)

module _ (P : LinkedList ℕ) where
  pub occurrences-unlink :
      (x y : ℕ) (xs : List ℕ)
      → 0 < occurrences x xs
      → occurrences y (P.remove xs x) + (if x == y then 1 else 0) ≡ occurrences y xs
  unfolding occurrences
  occurrences-unlink x y [] h = absurd (omega arith)
  occurrences-unlink x y (z ∷ zs) h = elim (Bool-cases (x == z)) [
    | inl e ↦ ground (arith, P.remove-head zs x)
    | inr e ↦ ground (arith, P.remove-tail x z zs, occurrences-unlink x y zs)
  ]

  pub All-unlink {ℓ} :
      (Q : ℕ → Type ℓ) (x : ℕ) (xs : List ℕ)
      → 0 < occurrences x xs
      → All Q xs
      → All Q (P.remove xs x)
  unfolding occurrences
  All-unlink Q x [] h v = absurd (omega arith)
  All-unlink Q x (z ∷ zs) h v = elim (Bool-cases (x == z)) [
    | inl e ↦ let same : z ≡ x = ground arith in rw same (rw (P.remove-head zs x) v.1)
    | inr e ↦
        rw (P.remove-tail x z zs (λ s. ground arith)) (v.0, All-unlink Q x zs (ground arith) v.1)
  ]

  -- Moving an entry to the back keeps what the list holds.
  pub occurrences-rotate :
      (x y : ℕ) (xs : List ℕ)
      → 0 < occurrences x xs
      → occurrences y (P.add (P.remove xs x) x) ≡ occurrences y xs
  occurrences-rotate x y xs h = omega (
    arith,
    ap (occurrences y) (P.add-back (P.remove xs x) x),
    occurrences-append x y (P.remove xs x),
    occurrences-unlink x y xs h,
  )

  pub All-rotate {ℓ} :
      (Q : ℕ → Type ℓ) (x : ℕ) (xs : List ℕ)
      → 0 < occurrences x xs
      → All Q xs
      → All Q (P.add (P.remove xs x) x)
  All-rotate Q x xs h v =
      rw (P.add-back (P.remove xs x) x) (All-add Q x _ (All-unlink Q x xs h v) (All-at Q x xs v h))
