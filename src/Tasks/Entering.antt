-- ===== src/Tasks/Entering.antt =====
-- What the constructor, the destructor and the exits of hold-scope.cpp do to the exact count of holds.
use alux.Prelude.{
  ℕ, ◌+◌, ◌^◌, ◌<◌, ◌≡◌, refl, inl, inr, subst, Bool, true, false, Bool-cases, Option, none, some,
  List, [], ◌∷◌, LinkedList, Returns, inc32, count-lt, count-le, le-count, arith, ◌>>=◌, update,
}
use alux.Kernel.{Kernel, Garbage, put_task}
use alux.Scheduler.Collector.{throw_away}
use alux.Tasks.HoldScope.{set_holding, HoldScope, construct, destroy, exit_thread, exit_task}
use alux.Tasks.Scopes.{World, cpu_of, put_cpu, lose, enter, leave, exit_from}
use alux.Tasks.Insiders.{IsExact, Moves-IsExact, Stacked, is_inside}
use alux.Tasks.Stored
use alux.Tasks.Task
use alux.Threads.Access.{get_task, get_scheduler}
use alux.Threads.Counts

module _ (xs : List ℕ) (w : World) (th : ℕ) (v : IsExact xs w)
    (joined : (w.kernel.threads th).in_task ≡ true) (here : w.gone th ≡ false) where
  abbrev home : ℕ
  home = (w.kernel.threads th).task

  -- The hold count has room for the thread, and has it while the thread is inside.
  room : (w.kernel.threads th).holding_task ≡ false → (w.kernel.tasks home).hold_count + 1 < 2 ^ 32
  room h =
      ground (arith, v.exact home, count-lt (is_inside w home) th xs, v.listed th, v.small home, h)

  held : (w.kernel.threads th).holding_task ≡ true → 0 < (w.kernel.tasks home).hold_count
  held h = ground (arith, v.exact home, le-count (is_inside w home) th xs, v.listed th, here, h)

  word : (w.kernel.tasks home).hold_count < 2 ^ 32
  word = ground (arith, v.exact home, v.small home, count-le (is_inside w home) xs)

  abbrev scope_of : Bool → HoldScope
  scope_of did_hold = record {
    was_critical = w.critical th;
    did_hold = did_hold;
    task = home;
    thread = th;
  }

  at_top :
      (scopes : List HoldScope)
      → Stacked th home scopes
      → Stacked th home (update w.scopes th scopes th)
  at_top scopes s = subst (Stacked th home) {x = scopes} (ground arith) s

  -- The constructor, in a nested scope and in an outermost one
  abbrev nested : World
  nested =
      put_cpu w th (scope_of false ∷ w.scopes th) (record { kernel = w.kernel; critical = false })

  abbrev outermost : World
  outermost =
      let t = w.kernel.tasks home in
      let k = put_task w.kernel home (record t { hold_count = inc32 t.hold_count }) in
      put_cpu w th (scope_of true ∷ w.scopes th)
        (record { kernel = set_holding k th true; critical = false })

  abbrev turned_away : World
  turned_away = lose w th (record { kernel = Counts.kill w.kernel th; critical = w.critical th })

  nested-IsExact : (w.kernel.threads th).holding_task ≡ true → IsExact xs nested
  nested-IsExact h = Moves-IsExact xs w nested th v joined record {
    in_task = λ x. refl;
    task = λ x. refl;
    holding = λ x n. refl;
    gone = λ x n. refl;
    scopes = λ x n. ground arith;
    others = λ i. refl;
    elsewhere = λ i n. refl;
    here = refl;
    marked = λ g. ground (arith, v.marked th);
    stacked =
        at_top (scope_of false ∷ w.scopes th)
          (refl, refl, ground (arith, v.marked th), v.stacked th);
  }

  outermost-IsExact : (w.kernel.threads th).holding_task ≡ false → IsExact xs outermost
  outermost-IsExact h = Moves-IsExact xs w outermost th v joined record {
    in_task = λ x. ground arith;
    task = λ x. ground arith;
    holding = λ x n. ground arith;
    gone = λ x n. refl;
    scopes = λ x n. ground arith;
    others = λ i. refl;
    elsewhere = λ i n. ground arith;
    here = ground (arith, room h);
    marked = λ g. ground arith;
    stacked =
        at_top (scope_of true ∷ w.scopes th)
          (refl, refl, ground (arith, v.marked th), v.stacked th);
  }

  turned_away-IsExact : (w.kernel.threads th).holding_task ≡ false → IsExact xs turned_away
  unfolding Counts.kill
  turned_away-IsExact h = Moves-IsExact xs w turned_away th v joined record {
    in_task = λ x. ground arith;
    task = λ x. ground arith;
    holding = λ x n. ground arith;
    gone = λ x n. ground arith;
    scopes = λ x n. ground arith;
    others = λ i. refl;
    elsewhere = λ i n. refl;
    here = ground arith;
    marked = λ g. absurd (ground arith);
    stacked = at_top [] tt;
  }

  pub enters-IsExact :
      (w.kernel.tasks home).in_scheduler ≡ true
      → Returns (construct (cpu_of w th) (some th) >>= λ e. some (enter w th e)) (IsExact xs)
  unfolding construct enter Stored.hold Task.hold get_task get_scheduler Counts.kill
  enters-IsExact sched = elim (Bool-cases (w.kernel.threads th).holding_task) [
    | inl e ↦
        subst (λ o. Returns o (IsExact xs)) {x = some nested} (ground (arith, joined))
          (nested-IsExact e)
    | inr e ↦ elim (Bool-cases (Task.is_killed (w.kernel.tasks home))) [
      | inl d ↦
          subst (λ o. Returns o (IsExact xs)) {x = some turned_away} (ground (arith, joined))
            (turned_away-IsExact e)
      | inr d ↦
          subst (λ o. Returns o (IsExact xs)) {x = some outermost} (ground (arith, joined))
            (outermost-IsExact e)
    ]
  ]

  module _ (L : LinkedList Garbage) (scope : HoldScope) (rest : List HoldScope)
      (e : w.scopes th ≡ scope ∷ rest) where
    marked_lem : (w.kernel.threads th).holding_task ≡ true
    marked_lem = ground (arith, v.marked th, here, e)

    top : Stacked th home (scope ∷ rest)
    top = subst (Stacked th home) e (v.stacked th)

    pub leave-IsExact : Returns (leave L w th (scope ∷ rest)) (IsExact xs)
    unfolding leave destroy Stored.unhold Task.unhold throw_away
    leave-IsExact =
        let (thread, task, did_hold, below) = top in
        Moves-IsExact xs w (put_cpu w th rest (destroy L scope (cpu_of w th))) th v joined record {
          in_task = λ x. ground arith;
          task = λ x. ground arith;
          holding = λ x n. ground (arith, thread);
          gone = λ x n. refl;
          scopes = λ x n. ground arith;
          others = λ i. refl;
          elsewhere = λ i n. ground (arith, task);
          here = ground (arith, thread, task, did_hold, held marked_lem, here, marked_lem, word);
          marked = λ g. ground (arith, thread, did_hold, marked_lem);
          stacked = at_top rest below;
        }

    -- The threads that exit from a scope
    abbrev lost : Kernel → World
    lost k = lose w th (record { kernel = Stored.unhold L k home; critical = true })

    exit_thread-IsExact : IsExact xs (lost (Counts.kill w.kernel th))
    unfolding Counts.kill Stored.unhold Task.unhold throw_away
    exit_thread-IsExact = Moves-IsExact xs w (lost (Counts.kill w.kernel th)) th v joined record {
      in_task = λ x. ground arith;
      task = λ x. ground arith;
      holding = λ x n. ground arith;
      gone = λ x n. ground arith;
      scopes = λ x n. ground arith;
      others = λ i. refl;
      elsewhere = λ i n. ground arith;
      here = ground (arith, held marked_lem, here, marked_lem, word);
      marked = λ g. absurd (ground arith);
      stacked = at_top [] tt;
    }

    exit_task-IsExact :
        (status : ℕ) → IsExact xs (lost (Stored.kill (Counts.kill w.kernel th) home status))
    unfolding Counts.kill Stored.kill Task.kill Stored.unhold Task.unhold throw_away
    exit_task-IsExact status =
        Moves-IsExact xs w (lost (Stored.kill (Counts.kill w.kernel th) home status)) th v joined
          record {
            in_task = λ x. ground arith;
            task = λ x. ground arith;
            holding = λ x n. ground arith;
            gone = λ x n. ground arith;
            scopes = λ x n. ground arith;
            others = λ i. refl;
            elsewhere = λ i n. ground arith;
            here = ground (arith, held marked_lem, here, marked_lem, word);
            marked = λ g. absurd (ground arith);
            stacked = at_top [] tt;
          }

    pub exits-IsExact :
        (status : Option ℕ)
        → (w.kernel.tasks home).in_scheduler ≡ true
        → Returns (exit_from L w th status (scope ∷ rest)) (IsExact xs)
    unfolding exit_from exit_thread exit_task get_scheduler Counts.kill Stored.kill Task.kill
        Stored.unhold Task.unhold throw_away
    exits-IsExact none sched =
        let (thread, task, _, _) = top in
        subst (λ o. Returns o (IsExact xs)) {x = some (lost (Counts.kill w.kernel th))}
          (ground (arith, thread, task)) exit_thread-IsExact
    exits-IsExact (some status) sched =
        let (thread, task, _, _) = top in
        subst (λ o. Returns o (IsExact xs))
          {x = some (lost (Stored.kill (Counts.kill w.kernel th) home status))}
          (ground (arith, thread, task)) (exit_task-IsExact status)
