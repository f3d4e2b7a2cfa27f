-- ===== src/Examples/Maps.antt =====
-- Maps of identifiers with the laws that the kernel relies on.
use alux.Prelude.{
  ℕ, subst, ◌+◌, ◌-◌, ◌≡◌, inl, inr, ◌==◌, Bool-cases, if◌then◌else◌, Option, none, some, List, [],
  ◌∷◌, IdMap, occurrences, arith,
}

abbrev pub without : List ℕ → ℕ → List ℕ
without [] x = []
without (y ∷ ys) x = let rest = y ∷ without ys x in if x == y then ys else rest

pub occurrences-without :
    (xs : List ℕ) (x y : ℕ)
    → occurrences y (without xs x) ≡ occurrences y xs - (if x == y then 1 else 0)
unfolding occurrences
occurrences-without [] x y = ground arith
occurrences-without (z ∷ zs) x y = elim (Bool-cases (x == z)) [
  | inl e ↦ ground arith
  | inr e ↦ ground (arith, occurrences-without zs x y)
]

pub occurrences-push :
    (xs : List ℕ) (x i : ℕ) (ys : List ℕ) (y : ℕ) {n : ℕ}
    → ◌≡◌ {A = Option (ℕ × List ℕ)} (some (n, x ∷ xs)) (some (i, ys))
    → occurrences y ys ≡ occurrences y xs + (if x == y then 1 else 0)
unfolding occurrences
occurrences-push xs x i ys y e =
    let same : x ∷ xs ≡ ys = ground arith in
    subst (λ zs. occurrences y zs ≡ occurrences y xs + (if x == y then 1 else 0)) same
      (ground arith)

pub never_some :
    (xs : List ℕ) (x i : ℕ) (ys : List ℕ) (y : ℕ)
    → ◌≡◌ {A = Option (ℕ × List ℕ)} none (some (i, ys))
    → occurrences y ys ≡ occurrences y xs + (if x == y then 1 else 0)
never_some xs x i ys y e = cc

-- A map that gives every entry the identifier 7, and one that is full.
abbrev pub sevens : IdMap
sevens = record {
  add = λ xs x. some (7, x ∷ xs);
  remove = without;
  occurrences-add = λ xs x i ys y e. occurrences-push xs x i ys y e;
  occurrences-remove = occurrences-without;
}

abbrev pub full : IdMap
full = record {
  add = λ xs x. none;
  remove = without;
  occurrences-add = never_some;
  occurrences-remove = occurrences-without;
}
