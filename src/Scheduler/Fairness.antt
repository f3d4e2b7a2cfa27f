-- ===== src/Scheduler/Fairness.antt =====
-- Every thread that may run gets its turn.
use alux.Prelude.{
  first, fun_ext, ap, occurrences-first, ◌∙◌, ◌==◌, All-at, occurrences-rotate, ℕ, ◌<◌, ◌≤◌, ◌≡◌,
  ◌≢◌, ◌⊎◌, refl, inl, inr, subst, true, false, not, Bool-cases, Option-cases, none, some, List, [],
  ◌∷◌, LinkedList, All, Returns, Returns->>=, Returns-mono, Returns-both, occurrences, arith,
  length, ◌>>=◌,
}
use alux.Kernel.{Kernel, Garbage}
use alux.Tasks.Task
use alux.Tasks.Stored
use alux.Scheduler.Collector.{throw_away}
use alux.Threads.Counts.{release}
use alux.Threads.Access.{get_task}
use alux.Scheduler.Switch.{
  Outcome, resumes, find_next, resign_current, retired, claimed, set_current, switch, resume,
  jiffy_us,
}
use alux.Scheduler.Selection.{can_retain, is_eligible, retained, find_next-first}
use alux.Scheduler.Exclusion.{
  Inv, Frame, release-Frame, joined-IsListed, switch-Inv, resign_current-Inv,
}
use alux.Scheduler.Turns.{ahead, ahead-rotate, ahead-first, first-found}

-- How many threads a switch may pick before `x`: the idle ones ahead of it.
abbrev pub turn : Kernel → ℕ → ℕ
turn k x = ahead (λ y. not (k.objs y).running) x k.run_queue

-- The thread waits in the list, can be retained, and its deadline is not after `limit`.
pub record IsReady (k : Kernel) (limit x : ℕ) : Type 0 where
  pub idle : (k.objs x).running ≡ false
  pub alive : can_retain k x ≡ true
  pub due : (k.objs x).deadline ≤ limit
  pub listed : 0 < occurrences x k.run_queue
  pub once : (y : ℕ) → occurrences y k.run_queue ≤ 1

-- What `Thread::Release` leaves of that.
record Steady (k k' : Kernel) : Type 0 where
  alive : (x : ℕ) → can_retain k' x ≡ can_retain k x
  due : (x : ℕ) → (k'.objs x).deadline ≤ (k.objs x).deadline

release-Steady :
    (L : LinkedList Garbage) (k : Kernel) (th : ℕ)
    → (k.threads th).in_task ≡ true
    → Returns (release L k th) (Steady k)
unfolding release Stored.release throw_away Task.release get_task
release-Steady L k th h = ground arith

Frame-IsReady :
    (k k' : Kernel) (limit x : ℕ)
    → Frame k k'
    → Steady k k'
    → IsReady k limit x
    → IsReady k' limit x × (turn k' x ≡ turn k x)
Frame-IsReady k k' limit x f s v = (
  record {
    idle = ground (arith, f.running x);
    alive = ground (arith, s.alive x);
    due = omega (arith, s.due x);
    listed = rw f.run_queue v.listed;
    once = rw f.run_queue v.once;
  },
  rw f.run_queue (ap (λ p. ahead p x k.run_queue) (fun_ext (λ y. ap not (f.running y)))),
)

module _ (L : LinkedList Garbage) (P : LinkedList ℕ) where
  retired-IsReady :
      (k : Kernel) (cpu th limit x : ℕ)
      → Inv k
      → k.current cpu ≡ some th
      → IsReady k limit x
      → IsReady (retired P k cpu th) limit x × (turn (retired P k cpu th) x ≡ turn k x)
  retired-IsReady k cpu th limit x v e r =
      let apart : x ≢ th = ground (arith, v.marked cpu th) in
      let here : 0 < occurrences th k.run_queue = v.enqueued cpu th e in
      (
        record {
          idle = ground arith;
          alive = r.alive;
          due = ground arith;
          listed = ground (arith, occurrences-rotate P th x k.run_queue here);
          once = λ y. ground (arith, r.once y, occurrences-rotate P th y k.run_queue here);
        },
        ahead-rotate P _ _ x th k.run_queue (λ y d. ground arith) (ground (arith, v.marked cpu th))
            apart (omega (arith, r.once th)) r.listed,
      )

  -- Giving up the current thread of a CPU leaves the turn of a waiting thread as it was.
  resign_current-IsReady :
      (k : Kernel) (cpu limit x : ℕ)
      → Inv k
      → IsReady k limit x
      → Returns (resign_current L P k cpu) (λ k'. IsReady k' limit x × (turn k' x ≡ turn k x))
  unfolding resign_current
  resign_current-IsReady k cpu limit x v r = elim (Option-cases (k.current cpu)) [
    | inl e ↦ rw (e, resign_current) (r, refl)
    | inr (th, e) ↦
        let k1 = retired P k cpu th in
        let joined = All-at _ th k.run_queue v.joined (v.enqueued cpu th e) in
        let before = retired-IsReady k cpu th limit x v e r in
        subst (λ o. Returns o (λ k'. IsReady k' limit x × (turn k' x ≡ turn k x))) (ground arith)
          (Returns-mono (λ k'. Frame k1 k' × Steady k1 k') _ (release L k1 th)
            (Returns-both (Frame k1) (Steady k1) (release L k1 th) (release-Frame L k1 th joined)
              (release-Steady L k1 th joined))
            λ k' f.
              let after = Frame-IsReady k1 k' limit x f.0 f.1 before.0 in
              (after.0, after.1 ∙ before.1))
  ]

  -- What a switch leads to: the thread runs, or it waits with fewer before it.
  abbrev Advances : Kernel → (limit x : ℕ) → (ℕ → ℕ) → Kernel × Outcome → Type 0
  Advances k limit x scale r =
      (r.1 ≡ resumes x (scale jiffy_us)) ⊎ IsReady r.0 limit x × (turn r.0 x < turn k x)

  claimed-IsReady :
      (k : Kernel) (cpu limit x y : ℕ)
      → IsReady k limit x
      → y ≢ x
      → IsReady (set_current (claimed (retained k y) y) cpu (some y)) limit x
  claimed-IsReady k cpu limit x y r d = record {
    idle = ground arith;
    alive = ground arith;
    due = ground arith;
    listed = r.listed;
    once = r.once;
  }

  turn-claimed :
      (k : Kernel) (cpu now x y : ℕ)
      → first (is_eligible k now) k.run_queue ≡ some y
      → is_eligible k now x ≡ true
      → y ≢ x
      → 0 < occurrences x k.run_queue
      → turn (set_current (claimed (retained k y) y) cpu (some y)) x < turn k x
  turn-claimed k cpu now x y e fit d o =
      ahead-first (is_eligible k now) _ _ x y k.run_queue e fit d (λ z h. ground arith)
        (λ z h. ground arith) (ground arith) o

  pick-Advances :
      (k : Kernel) (cpu now limit x : ℕ) (scale : ℕ → ℕ)
      → Inv k
      → IsReady k limit x
      → limit ≤ now
      → Returns
          (find_next L k now k.run_queue >>= λ r. resume L P r.0 cpu scale r.1)
          (Advances k limit x scale)
  unfolding resume get_task
  pick-Advances k cpu now limit x scale v r h =
      let fit : is_eligible k now x ≡ true = ground arith in
      let (y, e) = first-found (is_eligible k now) x k.run_queue fit r.listed in
      let (at, chosen) = occurrences-first (is_eligible k now) k.run_queue y e in
      let k' = set_current (claimed (retained k y) y) cpu (some y) in
      let result : Kernel × Outcome = (k', resumes y (scale jiffy_us)) in
      rw (find_next-first L k now k.run_queue (joined-IsListed k v k.run_queue v.joined)) (
        rw e (
          subst (λ o. Returns o (Advances k limit x scale)) {x = some result}
            (ground (arith, All-at (λ z. (k.threads z).in_task ≡ true) y k.run_queue v.joined at))
            (elim (Bool-cases (y == x)) [
              | inl s ↦ inl (ground arith)
              | inr s ↦ inr (
                claimed-IsReady k cpu limit x y r (ground arith),
                turn-claimed k cpu now x y e fit (ground arith) r.listed,
              )
            ])))

  -- One switch: the waiting thread runs, or it waits with fewer idle threads before it.
  switch-Advances :
      (k : Kernel) (cpu now limit x : ℕ) (scale : ℕ → ℕ)
      → Inv k
      → IsReady k limit x
      → limit ≤ now
      → Returns (switch L P k cpu now scale) (λ r. Inv r.0 × Advances k limit x scale r)
  unfolding switch
  switch-Advances k cpu now limit x scale v r h =
      Returns-both (λ s. Inv s.0) (Advances k limit x scale) (switch L P k cpu now scale)
        (Returns-mono _ (λ s. Inv s.0) (switch L P k cpu now scale)
          (switch-Inv L P k cpu now scale v) (λ s w. w.0))
        (Returns->>=
          (λ k'. (Inv k' × (k'.current cpu ≡ none)) × (IsReady k' limit x × (turn k' x ≡ turn k x)))
          (Advances k limit x scale) (resign_current L P k cpu) _
          (Returns-both _ _ (resign_current L P k cpu) (resign_current-Inv L P k cpu v)
            (resign_current-IsReady k cpu limit x v r))
          (λ k' w.
            Returns-mono (Advances k' limit x scale) (Advances k limit x scale) _
              (pick-Advances k' cpu now limit x scale w.0.0 w.1.0 h)
              (λ s a. elim a [ inl e ↦ inl e | inr (q, m) ↦ inr (q, omega (arith, m, w.1.1)) ])))

  -- The CPUs switch one after the other, each at its time, and one of the switches resumes `x`.
  abbrev pub Served : (ℕ → ℕ) → Kernel → ℕ → List (ℕ × ℕ) → Type 0
  Served scale k x [] = ⊥
  Served scale k x ((cpu, now) ∷ es) =
      Returns (switch L P k cpu now scale)
        (λ r. (r.1 ≡ resumes x (scale jiffy_us)) ⊎ Served scale r.0 x es)

  -- No thread starves. From a state with the invariant of the scheduler in which no thread stands in
  -- the list twice, if a thread of the list is idle and can be retained, then one of any
  -- `turn k x + 1` switches in a row resumes it, whichever CPUs switch, at any times from its deadline
  -- on, and none of the switches up to there fails. Here `turn` counts the idle threads ahead of it.
  pub switches_serve :
      (k : Kernel) (limit x : ℕ) (scale : ℕ → ℕ) (es : List (ℕ × ℕ))
      → Inv k
      → IsReady k limit x
      → All (λ e. limit ≤ e.1) es
      → turn k x < length es
      → Served scale k x es
  switches_serve k limit x scale [] v r h n = absurd (omega arith)
  switches_serve k limit x scale ((cpu, now) ∷ es) v r h n =
      Returns-mono (λ s. Inv s.0 × Advances k limit x scale s) _ (switch L P k cpu now scale)
        (switch-Advances k cpu now limit x scale v r h.0)
        λ s w. elim w.1 [
          | inl e ↦ inl e
          | inr (r', m) ↦ inr (switches_serve s.0 limit x scale es w.0 r' h.1 (omega (arith, m, n)))
        ]
