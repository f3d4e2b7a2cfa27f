-- ===== src/Tasks/Held.antt =====
-- The hold count of a task is the number of the threads that are inside a scope of
-- kernel/src/tasks/hold-scope.cpp, and of the other holds.
use alux.Prelude.{
  ℕ, ◌-◌, ◌<◌, ◌≡◌, refl, subst, true, false, Option, List, [], ◌∷◌, LinkedList, Returns, count-le,
  le-count, count_same, arith, update,
}
use alux.Kernel.{Garbage}
use alux.Scheduler.Collector.{throw_away}
use alux.Tasks.HoldScope.{HoldScope}
use alux.Tasks.Scopes.{
  World, Call, enters, leaves, exits, kills, kills_thread, unholds, leave, exit_from, perform,
}
use alux.Tasks.Insiders.{IsExact, Stacked, is_inside, is_nil}
use alux.Tasks.Entering.{enters-IsExact, leave-IsExact, exits-IsExact}
use alux.Tasks.Stored
use alux.Tasks.Task
use alux.Threads.Counts

-- What the caller of hold-scope.cpp sees to: a thread is in its task, and has not exited when it enters
-- or leaves a scope; it leaves a scope that it is in; a task that a thread exits from, or is turned away
-- from, is in the scheduler; and a hold that is given back was taken.
abbrev pub Allowed : World → Call → Type 0
Allowed w (enters th) =
    ((w.kernel.threads th).in_task ≡ true)
    × (w.gone th ≡ false)
    × ((w.kernel.tasks (w.kernel.threads th).task).in_scheduler ≡ true)
Allowed w (leaves th) =
    ((w.kernel.threads th).in_task ≡ true) × (w.gone th ≡ false) × (is_nil (w.scopes th) ≡ false)
Allowed w (exits th status) =
    ((w.kernel.threads th).in_task ≡ true)
    × (w.gone th ≡ false)
    × (is_nil (w.scopes th) ≡ false)
    × ((w.kernel.tasks (w.kernel.threads th).task).in_scheduler ≡ true)
Allowed w (kills task reason) = Unit
Allowed w (kills_thread th) = Unit
Allowed w (unholds task) = 0 < w.others task

kill-IsExact :
    (xs : List ℕ) (w : World) (task reason : ℕ)
    → IsExact xs w
    → IsExact xs (record w { kernel = Stored.kill w.kernel task reason })
unfolding Stored.kill Task.kill
kill-IsExact xs w task reason v = record {
  listed = v.listed;
  exact = λ i. ground (arith, v.exact i);
  small = v.small;
  marked = v.marked;
  stacked = v.stacked;
}

kill_thread-IsExact :
    (xs : List ℕ) (w : World) (th : ℕ)
    → IsExact xs w
    → IsExact xs (record w { kernel = Counts.kill w.kernel th })
unfolding Counts.kill
kill_thread-IsExact xs w th v =
    let w' = record w { kernel = Counts.kill w.kernel th } in
    record {
      listed = λ x e. v.listed x (ground arith);
      exact = λ i.
          ground
            (arith, v.exact i, count_same (is_inside w i) (is_inside w' i) xs (λ y. ground arith));
      small = v.small;
      marked = λ x g. ground (arith, v.marked x);
      stacked = λ x.
          subst (λ t. Stacked x t (w.scopes x)) {x = (w.kernel.threads x).task} (ground arith)
            (v.stacked x);
    }

unholds-IsExact :
    (L : LinkedList Garbage) (xs : List ℕ) (w : World) (task : ℕ)
    → IsExact xs w
    → 0 < w.others task
    → Returns (perform L w (unholds task)) (IsExact xs)
unfolding Stored.unhold Task.unhold throw_away
unholds-IsExact L xs w task v h =
    let w' = record w {
      kernel = Stored.unhold L w.kernel task;
      others = update w.others task (w.others task - 1);
    } in
    record {
      listed = λ x e. v.listed x (ground arith);
      exact = λ i. ground (
        arith,
        v.exact i,
        v.small i,
        count-le (is_inside w i) xs,
        count_same (is_inside w i) (is_inside w' i) xs (λ y. ground arith),
      );
      small = λ i. ground (arith, v.small i);
      marked = λ x g. ground (arith, v.marked x);
      stacked = λ x.
          subst (λ t. Stacked x t (w.scopes x)) {x = (w.kernel.threads x).task} (ground arith)
            (v.stacked x);
    }

-- A thread that is in a scope has an innermost one.
by_scopes :
    (xs : List ℕ) (L : LinkedList Garbage) (w : World) (th : ℕ) (scopes : List HoldScope)
    → w.scopes th ≡ scopes
    → IsExact xs w
    → (w.kernel.threads th).in_task ≡ true
    → w.gone th ≡ false
    → is_nil scopes ≡ false
    → Returns (leave L w th scopes) (IsExact xs)
      × ((status : Option ℕ)
          → (w.kernel.tasks (w.kernel.threads th).task).in_scheduler ≡ true
          → Returns (exit_from L w th status scopes) (IsExact xs))
by_scopes xs L w th [] e v joined here n = cc
by_scopes xs L w th (scope ∷ rest) e v joined here n = (
  leave-IsExact xs w th v joined here L scope rest e,
  exits-IsExact xs w th v joined here L scope rest e,
)

-- The holds of a task are counted exactly. Whatever threads enter and leave scopes, nested or not, and
-- exit from them, whoever kills tasks and threads in between and gives holds back, in any order, every
-- call returns, the hold count of each task stays the number of its threads that are inside a scope and
-- of the other holds of it, and a thread is marked as holding its task exactly while it is inside one.
-- The threads and the other holds of a task are fewer than 2 ^ 32.
pub perform-IsExact :
    (L : LinkedList Garbage) (xs : List ℕ) (w : World) (c : Call)
    → IsExact xs w
    → Allowed w c
    → Returns (perform L w c) (IsExact xs)
perform-IsExact L xs w (enters th) v h = enters-IsExact xs w th v h.0 h.1 h.2
perform-IsExact L xs w (leaves th) v h = (by_scopes xs L w th (w.scopes th) refl v h.0 h.1 h.2).0
perform-IsExact L xs w (exits th status) v h =
    (by_scopes xs L w th (w.scopes th) refl v h.0 h.1 h.2).1 status h.3
perform-IsExact L xs w (kills task reason) v h = kill-IsExact xs w task reason v
perform-IsExact L xs w (kills_thread th) v h = kill_thread-IsExact xs w th v
perform-IsExact L xs w (unholds task) v h = unholds-IsExact L xs w task v h

-- A task that passes the test for being thrown away has no thread inside a scope.
done_outside :
    (xs : List ℕ) (w : World) (th : ℕ)
    → IsExact xs w
    → (w.kernel.threads th).in_task ≡ true
    → w.gone th ≡ false
    → Task.is_done (w.kernel.tasks (w.kernel.threads th).task) ≡ true
    → w.scopes th ≡ []
done_outside xs w th v joined here d =
    empty (w.scopes th)
      (ground (arith, v.exact home, v.listed th, v.marked th, le-count (is_inside w home) th xs))
  where
    home : ℕ
    home = (w.kernel.threads th).task

    empty : (ss : List HoldScope) → is_nil ss ≡ true → ss ≡ []
    empty [] e = refl
    empty (s ∷ ss) e = cc
