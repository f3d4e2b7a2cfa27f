-- ===== src/Scheduler/Exits.antt =====
-- Threads that leave their CPU, under kernel/src/scheduler/rr-scheduler.cpp.
use alux.Prelude.{
  ℕ, ◌<◌, ◌≡◌, ◌≢◌, inl, inr, subst, true, some, List, [], ◌∷◌, LinkedList, All, All-at, Returns,
  Returns-mono, arith,
}
use alux.Kernel.{Kernel, Garbage}
use alux.Threads.Counts.{kill}
use alux.Threads.Access.{get_task, get_scheduler, get_task_scheduler}
use alux.Threads.Exit.{exit_current}
use alux.Scheduler.Switch.{switch, yield_thread, set_timeout}
use alux.Scheduler.Barred.{IsGone, IsLeaving, Bars-IsBarred, kill-Bars, Spurns, Left, switch-Left}
use alux.Threads.Sleep.{arm_timeout}
use alux.Scheduler.Exclusion.{Inv, All-mono}

module _ (L : LinkedList Garbage) (P : LinkedList ℕ) where
  -- What happens after the thread has left its CPU.
  pub data Event : Type 0 where
    switches : (cpu now : ℕ) → Event
    kills : (th : ℕ) → Event
    sets : (th deadline : ℕ) → Event

  -- The times of the switches, and the threads whose timeouts are set or, to 0, cleared.
  abbrev pub Within : (T U : ℕ → Type 0) → Event → Type 0
  Within T U (switches cpu now) = T now
  Within T U (kills th) = Unit
  Within T U (sets th deadline) = U th

  -- Nothing fails, and no switch resumes the thread.
  abbrev pub Never : (ℕ → ℕ) → Kernel → ℕ → List Event → Type 0
  Never scale k x [] = (c : ℕ) → k.current c ≢ some x
  Never scale k x (switches cpu now ∷ es) =
      Returns (switch L P k cpu now scale) (λ r. Spurns x r.1 × Never scale r.0 x es)
  Never scale k x (kills th ∷ es) = Never scale (kill k th) x es
  Never scale k x (sets th deadline ∷ es) = Never scale (arm_timeout k th deadline) x es

  pub kill-Inv : (k : Kernel) (th : ℕ) → Inv k → Inv (kill k th)
  unfolding kill
  kill-Inv k th v = record {
    joined =
        All-mono (λ x. (k.threads x).in_task ≡ true) (λ x. ((kill k th).threads x).in_task ≡ true)
          k.run_queue (λ x h. ground arith) v.joined;
    enqueued = v.enqueued;
    marked = v.marked;
    apart = v.apart;
    words = λ x. ground (arith, v.words x);
    task_words = v.task_words;
  }

  pub armed-Inv : (k : Kernel) (x deadline : ℕ) → Inv k → Inv (arm_timeout k x deadline)
  unfolding arm_timeout
  armed-Inv k x deadline v = record {
    joined = v.joined;
    enqueued = v.enqueued;
    marked = λ c th e. ground (arith, v.marked c th);
    apart = v.apart;
    words = v.words;
    task_words = v.task_words;
  }

  -- What a timeout of one of the threads leaves.
  abbrev Endures : (T U : ℕ → Type 0) → ℕ → Type 0
  Endures T U x =
      (k : Kernel) (th deadline : ℕ) → U th → IsGone T k x → IsGone T (arm_timeout k th deadline) x

  gone_stays :
      (T U : ℕ → Type 0) (k : Kernel) (x : ℕ) (scale : ℕ → ℕ) (es : List Event)
      → Endures T U x
      → Inv k
      → IsGone T k x
      → All (Within T U) es
      → Never scale k x es
  unfolding kill
  gone_stays T U k x scale [] s v d h = d.nowhere
  gone_stays T U k x scale (switches cpu now ∷ es) s v d h =
      Returns-mono (λ r. Inv r.0 × Left L P T x r) _ (switch L P k cpu now scale)
        (switch-Left L P T k cpu now x scale v h.0
          (record { barred = d.barred; elsewhere = λ c n. d.nowhere c }))
        (λ r w. (w.1.1, gone_stays T U r.0 x scale es s w.0 w.1.0 h.1))
  gone_stays T U k x scale (sets th deadline ∷ es) s v d h =
      gone_stays T U (arm_timeout k th deadline) x scale es s (armed-Inv k th deadline v)
        (s k th deadline h.0 d) h.1
  gone_stays T U k x scale (kills th ∷ es) s v d h =
      gone_stays T U (kill k th) x scale es s (kill-Inv k th v)
        (record {
          barred = λ now t. Bars-IsBarred x now (kill-Bars k th) (d.barred now t);
          nowhere = d.nowhere;
        })
        h.1

  -- A switch away from the thread, and what follows.
  leaving-Never :
      (T U : ℕ → Type 0) (k : Kernel) (cpu now x : ℕ) (scale : ℕ → ℕ) (es : List Event)
      → Endures T U x
      → Inv k
      → T now
      → IsLeaving T k cpu x
      → All (Within T U) es
      → Returns (switch L P k cpu now scale) (λ r. Spurns x r.1 × Never scale r.0 x es)
  leaving-Never T U k cpu now x scale es s v t d h =
      Returns-mono (λ r. Inv r.0 × Left L P T x r) _ (switch L P k cpu now scale)
        (switch-Left L P T k cpu now x scale v t d)
        (λ r w. (w.1.1, gone_stays T U r.0 x scale es s w.0 w.1.0 h))

  always : (es : List Event) → All (Within (λ now. Unit) (λ th. Unit)) es
  always [] = tt
  always (switches cpu now ∷ es) = (tt, always es)
  always (kills th ∷ es) = (tt, always es)
  always (sets th deadline ∷ es) = (tt, always es)

  -- A thread that may run at no time has been killed, and no timeout changes that.
  dead-Endures : (x : ℕ) → Endures (λ now. Unit) (λ th. Unit) x
  unfolding arm_timeout
  dead-Endures x k th deadline u d =
      let dead : (k.threads x).killed ≡ true = elim (d.barred (k.objs x).deadline tt) [
        | inl e ↦ e
        | inr (lt, n) ↦ absurd (omega arith)
      ] in
      record { barred = λ now t. inl dead; nowhere = d.nowhere }

  -- A timeout of another thread changes nothing for one that waits for its deadline.
  waiting-Endures : (T : ℕ → Type 0) (x : ℕ) → Endures T (λ th. th ≢ x) x
  unfolding arm_timeout
  waiting-Endures T x k th deadline n d = record {
    barred = λ now t. elim (d.barred now t) [ inl e ↦ inl e | inr (lt, m) ↦ inr (ground arith, m) ];
    nowhere = d.nowhere;
  }

  -- `ExitCurrent` is the last that a thread does. From a state with the invariant of the scheduler,
  -- for the current thread of a CPU whose task is in the scheduler, no assertion fails in it and the
  -- CPU goes on with another thread or with none; and whichever CPUs then switch at whatever times,
  -- and whatever threads are killed and timeouts set or cleared in between, no assertion fails and no
  -- switch resumes the thread.
  pub exit_current-Never :
      (k : Kernel) (cpu now x : ℕ) (scale : ℕ → ℕ) (es : List Event)
      → Inv k
      → k.current cpu ≡ some x
      → (k.tasks (k.threads x).task).in_scheduler ≡ true
      → Returns (exit_current L P k cpu now scale) (λ r. Spurns x r.1 × Never scale r.0 x es)
  unfolding exit_current kill yield_thread get_task_scheduler get_task get_scheduler
  exit_current-Never k cpu now x scale es v e s =
      let joined = All-at _ x k.run_queue v.joined (v.enqueued cpu x e) in
      subst (λ o. Returns o (λ r. Spurns x r.1 × Never scale r.0 x es))
        {x = switch L P (kill k x) cpu now scale} (ground (arith, joined))
        (leaving-Never (λ now. Unit) (λ th. Unit) (kill k x) cpu now x scale es (dead-Endures x)
          (kill-Inv k x v) tt
          (record {
            barred = λ now t. inl (ground arith);
            elsewhere = λ c n h. n (v.apart c cpu x h e);
          })
          (always es))

  -- `SetTimeout` keeps its thread from running until the deadline. From a state with the invariant
  -- of the scheduler, for the current thread of a CPU that is not the collector's, and a deadline
  -- that is later than the time of the call, no assertion fails in it and the CPU goes on with
  -- another thread or with none; and whichever CPUs then switch at times before the deadline, and
  -- whatever threads are killed and timeouts of other threads set or cleared in between, no assertion
  -- fails and no switch resumes the thread.
  pub set_timeout-Never :
      (k : Kernel) (cpu now deadline x : ℕ) (scale : ℕ → ℕ) (es : List Event)
      → Inv k
      → k.current cpu ≡ some x
      → x ≢ k.collector_thread
      → now < deadline
      → All (Within (λ t. t < deadline) (λ th. th ≢ x)) es
      → Returns
          (set_timeout L P k cpu deadline now scale)
          (λ r. Spurns x r.1 × Never scale r.0 x es)
  unfolding set_timeout yield_thread arm_timeout
  set_timeout-Never k cpu now deadline x scale es v e n lt h =
      let k' = arm_timeout k x deadline in
      subst (λ o. Returns o (λ r. Spurns x r.1 × Never scale r.0 x es))
        {x = switch L P k' cpu now scale} (ground arith)
        (leaving-Never (λ t. t < deadline) (λ th. th ≢ x) k' cpu now x scale es
          (waiting-Endures (λ t. t < deadline) x) (armed-Inv k x deadline v) lt
          (record {
            barred = λ t before. inr (ground arith, n);
            elsewhere = λ c m q. m (v.apart c cpu x q e);
          })
          h)
