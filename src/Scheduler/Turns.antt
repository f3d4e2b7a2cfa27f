-- ===== src/Scheduler/Turns.antt =====
-- The place of a thread in the list of kernel/src/scheduler/rr-scheduler.cpp: how many others a
-- switch may pick before it.
use alux.Prelude.{
  first, occurrences-unlink, ℕ, ◌+◌, ◌≤◌, ◌<◌, ◌≡◌, ◌≢◌, inl, inr, Bool, true, false, ◌==◌,
  if◌then◌else◌, Bool-cases, some, List, [], ◌∷◌, ◌++◌, LinkedList, occurrences, arith,
}

-- The entries ahead of `x` that pass a test.
unfoldable pub ahead : (ℕ → Bool) → ℕ → List ℕ → ℕ
ahead p x [] = 0
ahead p x (y ∷ ys) = let rest = (if p y then 1 else 0) + ahead p x ys in if y == x then 0 else rest

pub ahead-le :
    (p q : ℕ → Bool) (x : ℕ) (xs : List ℕ)
    → ((y : ℕ) → p y ≡ true → q y ≡ true)
    → ahead p x xs ≤ ahead q x xs
unfolding ahead
ahead-le p q x [] h = ground arith
ahead-le p q x (y ∷ ys) h = ground (arith, h y, ahead-le p q x ys h)

-- Without a thread the test may change on it.
ahead_absent :
    (p q : ℕ → Bool) (x th : ℕ) (xs : List ℕ)
    → ((y : ℕ) → y ≢ th → q y ≡ p y)
    → occurrences th xs ≡ 0
    → ahead q x xs ≡ ahead p x xs
unfolding ahead occurrences
ahead_absent p q x th [] h n = ground arith
ahead_absent p q x th (y ∷ ys) h n = ground (arith, h y, ahead_absent p q x th ys h)

ahead-append :
    (p : ℕ → Bool) (x : ℕ) (xs ys : List ℕ)
    → 0 < occurrences x xs
    → ahead p x (xs ++ ys) ≡ ahead p x xs
unfolding ahead occurrences
ahead-append p x [] ys h = absurd (omega arith)
ahead-append p x (z ∷ zs) ys h = ground (arith, ahead-append p x zs ys)

module _ (P : LinkedList ℕ) where
  ahead-remove :
      (p q : ℕ → Bool) (x th : ℕ) (xs : List ℕ)
      → ((y : ℕ) → y ≢ th → q y ≡ p y)
      → p th ≡ false
      → x ≢ th
      → occurrences th xs ≡ 1
      → ahead q x (P.remove xs th) ≡ ahead p x xs
  unfolding ahead occurrences
  ahead-remove p q x th [] h f d n = absurd (omega arith)
  ahead-remove p q x th (y ∷ ys) h f d n = elim (Bool-cases (y == th)) [
    | inl e ↦
        let s : y ≡ th = ground arith in
        rw s (rw (P.remove-head ys th) (ground (arith, ahead_absent p q x th ys h)))
    | inr e ↦
        rw (P.remove-tail th y ys (λ s. ground arith))
          (ground (arith, h y, ahead-remove p q x th ys h f d))
  ]

  -- Moving a thread that does not pass the test to the back changes nothing for the others, whatever
  -- the test says of it there.
  pub ahead-rotate :
      (p q : ℕ → Bool) (x th : ℕ) (xs : List ℕ)
      → ((y : ℕ) → y ≢ th → q y ≡ p y)
      → p th ≡ false
      → x ≢ th
      → occurrences th xs ≡ 1
      → 0 < occurrences x xs
      → ahead q x (P.add (P.remove xs th) th) ≡ ahead p x xs
  ahead-rotate p q x th xs h f d n o =
      let kept : 0 < occurrences x (P.remove xs th) =
        ground (arith, occurrences-unlink P th x xs) in
      rw (P.add-back (P.remove xs th) th) (
        omega (
          arith,
          ahead-append q x (P.remove xs th) (th ∷ []) kept,
          ahead-remove p q x th xs h f d n,
        ))

-- If the first thread that may run is not `x`, which may, then it was ahead of `x`; once it does not
-- pass the test, fewer are.
pub ahead-first :
    (p q q' : ℕ → Bool) (x y : ℕ) (xs : List ℕ)
    → first p xs ≡ some y
    → p x ≡ true
    → y ≢ x
    → ((z : ℕ) → p z ≡ true → q z ≡ true)
    → ((z : ℕ) → q' z ≡ true → q z ≡ true)
    → q' y ≡ false
    → 0 < occurrences x xs
    → ahead q' x xs < ahead q x xs
unfolding first ahead occurrences
ahead-first p q q' x y [] e f d h h' n o = cc
ahead-first p q q' x y (z ∷ zs) e f d h h' n o = elim (Bool-cases (p z)) [
  | inl t ↦ let s : z ≡ y = ground arith in ground (arith, h z, ahead-le q' q x zs h')
  | inr t ↦ ground (arith, h' z, ahead-first p q q' x y zs)
]

-- Where a thread of the list may run, the search finds one.
pub first-found :
    (p : ℕ → Bool) (x : ℕ) (xs : List ℕ)
    → p x ≡ true
    → 0 < occurrences x xs
    → (y : ℕ) × (first p xs ≡ some y)
unfolding first occurrences
first-found p x [] e o = absurd (omega arith)
first-found p x (z ∷ zs) e o = elim (Bool-cases (p z)) [
  | inl t ↦ (z, ground arith)
  | inr t ↦ let (y, f) = first-found p x zs e (ground arith) in (y, ground arith)
]
