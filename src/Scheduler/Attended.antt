-- ===== src/Scheduler/Attended.antt =====
-- The collector of kernel/src/scheduler/garbage-collector.cpp does not sleep over its work.
use alux.Prelude.{
  ℕ, ◌≡◌, ◌≢◌, refl, inl, inr, subst, not, ◌&&◌, Bool, false, some, List, [], ◌∷◌, LinkedList,
  IdMap, if◌then◌else◌, dec32, ◌==◌, >>=-eq-some, arith, Bool-cases,
}
use alux.Kernel.{put_stale, Kernel, Garbage, task_garbage, thread_garbage, terminal_garbage}
use alux.Scheduler.Attention.{
  stale-Keeps, throw_away-Keeps, terminal_dealloc-Keeps, thread_dealloc-Keeps,
}
use alux.Scheduler.Collector.{throw_away}
use alux.Scheduler.Main.{dealloc, main_round}
use alux.Scheduler.Notice.{Keeps, Keeps-same, Keeps-trans, Grows-same, at_most_one}
use alux.Scheduler.Selection.{can_retain, is_eligible}
use alux.Scheduler.Stable.{IsStable, switch-IsStable}
use alux.Scheduler.Switch.{Outcome, switch}
use alux.Tasks.Life as task_life
use alux.Tasks.Stored
use alux.Tasks.Task
use alux.Threads.Access.{get_task}
use alux.Threads.Counts.{retain, release}
use alux.Threads.Life as thread_life

retain-Keeps : (k : Kernel) (x : ℕ) {r : Kernel × Bool} → retain k x ≡ some r → Keeps k r.0
unfolding retain Stored.retain Task.retain get_task
retain-Keeps k x h = record {
  collector = ground arith;
  due = λ e. ground arith;
  grows = Grows-same (ground arith);
  noticed = inl (ground arith);
}

release-Keeps :
    (L : LinkedList Garbage) (k : Kernel) (x : ℕ) {r : Kernel} → release L k x ≡ some r → Keeps k r
unfolding release Stored.release throw_away Task.release get_task
release-Keeps L k x h = record {
  collector = ground arith;
  due = λ e. ground arith;
  grows =
      at_most_one L
        (if (k.threads x).killed && (dec32 (k.threads x).retain_count == 0)
          then thread_garbage x
          else task_garbage (k.threads x).task)
        (ground arith);
  noticed = ground arith;
}

-- A switch of threads keeps the collector due.
pub Keeps-IsStable : (L : LinkedList Garbage) (P : LinkedList ℕ) → IsStable L P Keeps
Keeps-IsStable L P = record {
  same = Keeps-same;
  trans = Keeps-trans;
  retains = retain-Keeps;
  releases = release-Keeps L;
  claims = λ k x. record {
    collector = refl;
    due = λ e. ground arith;
    grows = Grows-same refl;
    noticed = inl refl;
  };
  retires = λ k cpu th. record {
    collector = refl;
    due = λ e. ground arith;
    grows = Grows-same refl;
    noticed = inl refl;
  };
  sets = λ k cpu o. record {
    collector = refl;
    due = λ e. e;
    grows = Grows-same refl;
    noticed = inl refl;
  };
}

module _ (L : LinkedList Garbage) (P : LinkedList ℕ) (M : IdMap) where
  dealloc_threads-Keeps :
      (k : Kernel) (ths : List ℕ) {r : Kernel}
      → task_life.dealloc_threads L P M k ths ≡ some r
      → Keeps k r
  unfolding task_life.dealloc_threads
  dealloc_threads-Keeps k [] h = subst (Keeps k) (ground arith) (Keeps-same k)
  dealloc_threads-Keeps k (th ∷ ths) h =
      let (k', e, f) = >>=-eq-some (thread_life.dealloc L P M k th) _ h in
      Keeps-trans (thread_dealloc-Keeps L P M k th e)
        (Keeps-trans (stale-Keeps L P M k' th) (dealloc_threads-Keeps (put_stale k' th) ths f))

  task_dealloc-Keeps :
      (k : Kernel) (i : ℕ) {r : Kernel} → task_life.dealloc L P M k i ≡ some r → Keeps k r
  unfolding task_life.dealloc
  task_dealloc-Keeps k i {r} h =
      let (k', e, f) = >>=-eq-some (task_life.dealloc_threads L P M k (k.thread_lists i)) _ h in
      Keeps-trans (dealloc_threads-Keeps k (k.thread_lists i) e)
        (elim (Bool-cases (k'.tasks i).in_scheduler) [
          | inl b ↦
              subst (Keeps k') {x = record k' { task_list = M.remove k'.task_list i }}
                (ground arith)
                (record {
                  collector = refl;
                  due = λ q. q;
                  grows = Grows-same refl;
                  noticed = inl refl;
                })
          | inr b ↦ subst (Keeps k') (ground arith) (Keeps-same k')
        ])

  pub dealloc-Keeps :
      (k : Kernel) (obj : Garbage) (stack : List ℕ) {r : Kernel}
      → dealloc L P M k obj stack ≡ some r
      → Keeps k r
  unfolding dealloc
  dealloc-Keeps k (task_garbage i) stack h = task_dealloc-Keeps k i h
  dealloc-Keeps k (thread_garbage i) stack h = thread_dealloc-Keeps L P M k i h
  dealloc-Keeps k (terminal_garbage i) stack h = terminal_dealloc-Keeps L P k i stack h

  -- The kernel from a moment on at which the collector had nothing to do: objects are thrown away,
  -- the collector goes through its loop, CPUs switch, and other code runs that leaves the deadline
  -- of the collector's thread and its list alone.
  pub data Reach : Kernel → Type 0 where
    start : (k : Kernel) → k.garbage ≡ [] → Reach k
    throws : {k : Kernel} → Reach k → (obj : Garbage) → Reach (throw_away L k obj)
    collects :
        {k : Kernel}
        → Reach k
        → (stack : List ℕ) (r : Kernel × Bool) → main_round L P M k stack ≡ some r
        → Reach r.0
    switches :
        {k : Kernel}
        → Reach k
        → (cpu now : ℕ) (scale : ℕ → ℕ) (r : Kernel × Outcome) → switch L P k cpu now scale ≡ some r
        → Reach r.0
    others : {k : Kernel} → Reach k → (k' : Kernel) → Keeps k k' → Reach k'

  -- The collector is due while there is something on its list.
  abbrev IsAttended : Kernel → Type 0
  IsAttended k = k.garbage ≢ [] → (k.objs k.collector_thread).deadline ≡ 0

  Keeps-IsAttended : (k k' : Kernel) → Keeps k k' → IsAttended k → IsAttended k'
  Keeps-IsAttended k k' s v n = elim s.noticed [
    | inl e ↦ ground (arith, s.collector, s.due (v (λ q. n (ground (arith, e, q)))))
    | inr e ↦ ground (arith, s.collector)
  ]

  collected-IsAttended :
      (k : Kernel) (stack : List ℕ) (r : Kernel × Bool) (gs : List Garbage)
      → k.garbage ≡ gs
      → IsAttended k
      → main_round L P M k stack ≡ some r
      → IsAttended r.0
  unfolding main_round
  collected-IsAttended k stack r [] e v h n = absurd (n (ground (arith, L.shift-nil)))
  collected-IsAttended k stack r (obj ∷ rest) e v h n =
      let k0 = record k { garbage = rest } in
      let due : (k.objs k.collector_thread).deadline ≡ 0 = v (λ q. ground (arith, e, q)) in
      let (k', q, f) =
        >>=-eq-some (dealloc L P M k0 obj stack) (λ k'. some (k', false)) {b = r}
          (ground (arith, L.shift-cons obj rest)) in
      let s = dealloc-Keeps k0 obj stack q in
      let same : r.0 ≡ k' = ground arith in ground (arith, s.collector, s.due due)

  Reach-IsAttended : {k : Kernel} → Reach k → IsAttended k
  Reach-IsAttended (start k e) = λ n. absurd (n e)
  Reach-IsAttended (throws {k} r obj) =
      Keeps-IsAttended k _ (throw_away-Keeps L P k obj) (Reach-IsAttended r)
  Reach-IsAttended (collects {k} r stack q h) =
      collected-IsAttended k stack q k.garbage refl (Reach-IsAttended r) h
  Reach-IsAttended (switches {k} r cpu now scale q h) =
      Keeps-IsAttended k q.0 (switch-IsStable L P Keeps (Keeps-IsStable L P) k cpu now scale q h)
        (Reach-IsAttended r)
  Reach-IsAttended (others {k} r k' s) = Keeps-IsAttended k k' s (Reach-IsAttended r)

  -- The collector does not sleep over its work. In every state that is reached from one with nothing
  -- on its list, in any order of objects thrown away, rounds of the collector's loop that return,
  -- switches that return and other code, if there is something on the list, then the deadline of the
  -- collector's thread holds it up at no time: the scheduler may pick it as soon as no CPU runs it,
  -- if it can be retained.
  pub garbage_due :
      {k : Kernel} (now : ℕ)
      → Reach k
      → k.garbage ≢ []
      → is_eligible k now k.collector_thread
        ≡ can_retain k k.collector_thread && not (k.objs k.collector_thread).running
  garbage_due {k} now r n = ground (arith, Reach-IsAttended r n)
