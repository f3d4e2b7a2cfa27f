-- ===== src/Tasks/Insiders.antt =====
-- The hold count of a task is the number of threads inside the scopes of hold-scope.cpp, and of the
-- other holds.
use alux.Prelude.{
  ℕ, ◌+◌, ◌^◌, ◌<◌, ◌≡◌, ◌≢◌, sym, ◌∙◌, inl, inr, subst, Bool, true, false, not, ◌&&◌, ◌==◌,
  Bool-cases, List, [], ◌∷◌, occurrences, length, count, bit, count_once, arith,
}
use alux.Tasks.HoldScope.{HoldScope}
use alux.Tasks.Scopes.{World}

abbrev pub is_nil : List HoldScope → Bool
is_nil [] = true
is_nil (s ∷ ss) = false

-- The scopes of a thread of a task: the outermost one holds the task.
abbrev pub Stacked : (th task : ℕ) → List HoldScope → Type 0
Stacked th task [] = Unit
Stacked th task (s ∷ rest) =
    (s.thread ≡ th) × (s.task ≡ task) × (s.did_hold ≡ is_nil rest) × Stacked th task rest

-- Whether a thread is inside a scope of a task
abbrev pub is_inside : World → (task x : ℕ) → Bool
is_inside w task x =
    ((w.kernel.threads x).task == task) && ((w.kernel.threads x).holding_task && not (w.gone x))

-- `xs` are the threads. The holds are counted exactly, and a thread that has not exited is marked while
-- it is inside its scopes.
pub record IsExact (xs : List ℕ) (w : World) : Type 0 where
  pub listed : (x : ℕ) → (w.kernel.threads x).in_task ≡ true → occurrences x xs ≡ 1
  pub exact : (i : ℕ) → (w.kernel.tasks i).hold_count ≡ w.others i + count (is_inside w i) xs
  pub small : (i : ℕ) → w.others i + length xs < 2 ^ 32
  pub marked :
      (x : ℕ) → w.gone x ≡ false → (w.kernel.threads x).holding_task ≡ not (is_nil (w.scopes x))
  pub stacked : (x : ℕ) → Stacked x (w.kernel.threads x).task (w.scopes x)

-- A step of one thread, which changes its mark and its scopes, and the holds of its task with them.
pub record Moves (w w' : World) (th : ℕ) : Type 0 where
  pub in_task : (x : ℕ) → (w'.kernel.threads x).in_task ≡ (w.kernel.threads x).in_task
  pub task : (x : ℕ) → (w'.kernel.threads x).task ≡ (w.kernel.threads x).task
  pub holding :
      (x : ℕ) → x ≢ th → (w'.kernel.threads x).holding_task ≡ (w.kernel.threads x).holding_task
  pub gone : (x : ℕ) → x ≢ th → w'.gone x ≡ w.gone x
  pub scopes : (x : ℕ) → x ≢ th → w'.scopes x ≡ w.scopes x
  pub others : (i : ℕ) → w'.others i ≡ w.others i
  pub elsewhere :
      (i : ℕ)
      → i ≢ (w.kernel.threads th).task
      → (w'.kernel.tasks i).hold_count ≡ (w.kernel.tasks i).hold_count
  pub here :
      let home = (w.kernel.threads th).task in
      (w'.kernel.tasks home).hold_count + bit (is_inside w home th)
      ≡ (w.kernel.tasks home).hold_count + bit (is_inside w' home th)
  pub marked :
      w'.gone th ≡ false → (w'.kernel.threads th).holding_task ≡ not (is_nil (w'.scopes th))
  pub stacked : Stacked th (w.kernel.threads th).task (w'.scopes th)

pub Moves-IsExact :
    (xs : List ℕ) (w w' : World) (th : ℕ)
    → IsExact xs w
    → (w.kernel.threads th).in_task ≡ true
    → Moves w w' th
    → IsExact xs w'
Moves-IsExact xs w w' th v h m =
    let home = (w.kernel.threads th).task in
    record {
      listed = λ x e. ground (arith, v.listed x, m.in_task x);
      exact = λ i. ground (
        arith,
        v.exact i,
        m.others i,
        m.elsewhere i,
        m.here,
        count_once (is_inside w i) (is_inside w' i) th xs
            (λ y n. ground (arith, m.task y, m.holding y n, m.gone y n)) (v.listed th h),
        m.task th,
      );
      small = λ i. ground (arith, v.small i, m.others i);
      marked = λ x g. elim (Bool-cases (x == th)) [
        | inl e ↦
            let same : x ≡ th = ground arith in
            subst (λ y. (w'.kernel.threads y).holding_task ≡ not (is_nil (w'.scopes y))) (sym same)
              (m.marked (rw same at g))
        | inr e ↦
            let other : x ≢ th = λ q. ground arith in
            rw (m.holding x other, m.scopes x other) (v.marked x (sym (m.gone x other) ∙ g))
      ];
      stacked = λ x. elim (Bool-cases (x == th)) [
        | inl e ↦
            let same : x ≡ th = ground arith in
            subst (λ y. Stacked y (w'.kernel.threads y).task (w'.scopes y)) (sym same)
              (rw (m.task th) m.stacked)
        | inr e ↦
            let other : x ≢ th = λ q. ground arith in rw (m.task x, m.scopes x other) (v.stacked x)
      ];
    }
