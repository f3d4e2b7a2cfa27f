-- ===== src/Examples/Lists.antt =====
-- A linked list with the laws that the kernel relies on.
use mathlib.Core.Path.{◌≡◌, refl}
use mathlib.Core.Logic.{ite, if_pos, if_neg}
use mathlib.Core.List.{List, [], ◌∷◌, ◌++◌}
use mathlib.Core.Option.{Option, none, some}
use native.Mathlib.Decide.{ℕ_discrete}
use alux.Prelude.{ℕ, LinkedList}
use alux.Kernel.{Garbage}

module _ {A : Type 0} (d : Discrete A) where
  abbrev unlink : List A → A → List A
  unlink [] x = []
  unlink (y ∷ ys) x = ite (d y x) ys (y ∷ unlink ys x)

  abbrev take_front : List A → Option (A × List A)
  take_front [] = none
  take_front (x ∷ xs) = some (x, xs)

  pub unlink_head : (xs : List A) (x : A) → unlink (x ∷ xs) x ≡ xs
  unlink_head xs x = if_pos (d x x) refl _ _

  pub unlink_tail : (x y : A) (xs : List A) → ¬ (y ≡ x) → unlink (y ∷ xs) x ≡ y ∷ unlink xs x
  unlink_tail x y xs h = if_neg (d y x) h _ _

  abbrev pub plain_list : LinkedList A
  plain_list = record {
    add = λ xs x. xs ++ x ∷ [];
    remove = unlink;
    shift = take_front;
    add-back = λ xs x. refl;
    remove-head = unlink_head;
    remove-tail = unlink_tail;
    shift-nil = refl;
    shift-cons = λ x xs. refl;
  }

pub Garbage-discrete : Discrete Garbage
Garbage-discrete = hlevel ℕ_discrete

abbrev pub links : LinkedList ℕ
links = plain_list ℕ_discrete

abbrev pub objects : LinkedList Garbage
objects = plain_list Garbage-discrete
