-- ===== src/Scheduler/Stable.antt =====
-- Relations between the states before and after that every part of a switch of threads keeps.
use alux.Prelude.{
  ℕ, ◌≡◌, inl, inr, Bool-cases, Bool, not, ◌||◌, ltb, Option-cases, subst, Option, none, some, List,
  [], ◌∷◌, LinkedList, >>=-eq-some, arith,
}
use alux.Kernel.{Kernel, Garbage}
use alux.Threads.Access.{get_task}
use alux.Threads.Counts.{retain, release}
use alux.Scheduler.Switch.{
  Outcome, find_next, resign_current, retired, claimed, set_current, switch, resume, resumes, waits,
  jiffy_us,
}

-- The relation holds across the parts of a switch.
pub record IsStable (L : LinkedList Garbage) (P : LinkedList ℕ) (R : Kernel → Kernel → Type 0)
    : Type 0 where
  pub same : (k : Kernel) → R k k
  pub trans : {a b c : Kernel} → R a b → R b c → R a c
  pub retains : (k : Kernel) (x : ℕ) {r : Kernel × Bool} → retain k x ≡ some r → R k r.0
  pub releases : (k : Kernel) (x : ℕ) {r : Kernel} → release L k x ≡ some r → R k r
  pub claims : (k : Kernel) (x : ℕ) → R k (claimed k x)
  pub retires : (k : Kernel) (cpu th : ℕ) → R k (retired P k cpu th)
  pub sets : (k : Kernel) (cpu : ℕ) (o : Option ℕ) → R k (set_current k cpu o)

module _ (L : LinkedList Garbage) (P : LinkedList ℕ) (R : Kernel → Kernel → Type 0)
    (v : IsStable L P R) where
  find_next-IsStable :
      (k : Kernel) (now : ℕ) (xs : List ℕ) {r : Kernel × Option ℕ}
      → find_next L k now xs ≡ some r
      → R k r.0
  unfolding find_next
  find_next-IsStable k now [] {r} h =
      subst (λ (q : Kernel × Option ℕ). R k q.0) {x = (k, none)} {y = r} (ground arith) (v.same k)
  find_next-IsStable k now (x ∷ xs) {r} h =
      let (a, e, f) = >>=-eq-some (retain k x) _ h in
      let s = v.retains k x e in
      elim (Bool-cases (not a.1)) [
        | inl b ↦ v.trans s (find_next-IsStable a.0 now xs {r = r} (ground arith))
        | inr b ↦ elim (Bool-cases (ltb now (a.0.objs x).deadline || (a.0.objs x).running)) [
          | inl c ↦
              let (k', e', f') =
                >>=-eq-some (release L a.0 x) (λ k'. find_next L k' now xs) {b = r}
                  (ground arith) in
              v.trans s (v.trans (v.releases a.0 x e') (find_next-IsStable k' now xs f'))
          | inr c ↦ v.trans s (
              subst (λ (q : Kernel × Option ℕ). R a.0 q.0) {x = (claimed a.0 x, some x)} {y = r}
                (ground arith) (v.claims a.0 x))
        ]
      ]

  resign_current-IsStable :
      (k : Kernel) (cpu : ℕ) {k' : Kernel} → resign_current L P k cpu ≡ some k' → R k k'
  unfolding resign_current
  resign_current-IsStable k cpu {k'} h = elim (Option-cases (k.current cpu)) [
    | inl e ↦ subst (R k) (ground arith) (v.same k)
    | inr (th, e) ↦
        v.trans (v.retires k cpu th) (v.releases (retired P k cpu th) th {r = k'} (ground arith))
  ]

  resume-IsStable :
      (k : Kernel) (cpu : ℕ) (scale : ℕ → ℕ) (o : Option ℕ) {r : Kernel × Outcome}
      → resume L P k cpu scale o ≡ some r
      → R k r.0
  unfolding resume get_task
  resume-IsStable k cpu scale none {r} h =
      subst (λ (q : Kernel × Outcome). R k q.0) {x = (k, waits (scale jiffy_us))} {y = r}
        (ground arith) (v.same k)
  resume-IsStable k cpu scale (some th) {r} h =
      subst (λ (q : Kernel × Outcome). R k q.0)
        {x = (set_current k cpu (some th), resumes th (scale jiffy_us))} {y = r} (ground arith)
        (v.sets k cpu (some th))

  -- So it holds across a switch.
  pub switch-IsStable :
      (k : Kernel) (cpu now : ℕ) (scale : ℕ → ℕ) (r : Kernel × Outcome)
      → switch L P k cpu now scale ≡ some r
      → R k r.0
  unfolding switch
  switch-IsStable k cpu now scale r h =
      let (k', e, f) = >>=-eq-some (resign_current L P k cpu) _ h in
      let (s, e', f') = >>=-eq-some (find_next L k' now k'.run_queue) _ f in
      v.trans (resign_current-IsStable k cpu e)
        (v.trans (find_next-IsStable k' now k'.run_queue e') (resume-IsStable s.0 cpu scale s.1 f'))
