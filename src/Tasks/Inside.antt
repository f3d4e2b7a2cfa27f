-- ===== src/Tasks/Inside.antt =====
-- What the body of a system call may rely on in the scope of kernel/src/tasks/hold-scope.cpp that it
-- enters.
use alux.Prelude.{
  update_restore, ℕ, ◌+◌, ◌^◌, ◌<◌, ◌≡◌, refl, inl, inr, subst, true, false, Bool-cases, some,
  inc32, LinkedList, Returns, arith,
}
use alux.Kernel.{Kernel, Garbage, put_task}
use alux.Scheduler.Safely.{Safely, Safely-same, Safely-trans, Frame-Safely, unhold-Safely}
use alux.Tasks.HoldScope.{Cpu, HoldScope, Entry, entered, exited, construct, destroy, set_holding}
use alux.Tasks.Stored
use alux.Tasks.Task
use alux.Threads.Access.{get_task, get_scheduler}
use alux.Threads.Counts

-- A thread that runs outside of scopes: it is in its task, which is in the scheduler and can be held
-- once more.
pub record IsCalling (k : Kernel) (th : ℕ) : Type 0 where
  pub joined : (k.threads th).in_task ≡ true
  pub outside : (k.threads th).holding_task ≡ false
  pub scheduled : (k.tasks (k.threads th).task).in_scheduler ≡ true
  pub small : (k.tasks (k.threads th).task).hold_count + 1 < 2 ^ 32

-- The store inside the scope: only the hold count of the task and the mark of the thread are new.
abbrev pub held_by : Kernel → ℕ → Kernel
held_by k th =
    let task = (k.threads th).task in
    let t = k.tasks task in
    set_holding (put_task k task (record t { hold_count = inc32 t.hold_count })) th true

pub held_by-Safely : (k : Kernel) (th : ℕ) → Safely k (held_by k th)
held_by-Safely k th = Frame-Safely k (held_by k th) record {
  current = λ c. refl;
  run_queue = refl;
  running = λ x. refl;
  in_task = λ x. ground arith;
  words = λ h x. ground (arith, h x);
  task_words = λ h i. ground (arith, h i);
}

unmarked-Safely : (k : Kernel) (th : ℕ) → Safely k (set_holding k th false)
unmarked-Safely k th = Frame-Safely k (set_holding k th false) record {
  current = λ c. refl;
  run_queue = refl;
  running = λ x. refl;
  in_task = λ x. ground arith;
  words = λ h x. ground (arith, h x);
  task_words = λ h i. h i;
}

-- The constructor enters a scope of the thread and its task, or the thread has been killed in it.
pub record Enters (s : Cpu) (th : ℕ) (scope : HoldScope) (s' : Cpu) : Type 0 where
  pub thread : scope.thread ≡ th
  pub task : scope.task ≡ (s.kernel.threads th).task
  pub was_critical : scope.was_critical ≡ s.critical
  pub did_hold : scope.did_hold ≡ true
  pub kernel : s'.kernel ≡ held_by s.kernel th

abbrev pub Starts : Cpu → ℕ → Entry → Type 0
Starts s th (entered scope s') = Enters s th scope s'
Starts s th (exited s') = (s'.critical ≡ s.critical) × (s'.kernel ≡ Counts.kill s.kernel th)

pub construct-Starts :
    (s : Cpu) (th : ℕ) → IsCalling s.kernel th → Returns (construct s (some th)) (Starts s th)
unfolding construct Task.hold get_task get_scheduler Counts.kill
construct-Starts s th v =
    elim (Bool-cases (Task.is_killed (s.kernel.tasks (s.kernel.threads th).task))) [
      | inl d ↦
          subst (λ o. Returns o (Starts s th))
            {x = some (exited (record s { kernel = Counts.kill s.kernel th }))}
            (ground (
              arith,
              v.joined,
              v.outside,
              v.scheduled,
              update_restore s.kernel.tasks (s.kernel.threads th).task,
            ))
            (refl, refl)
      | inr d ↦
          let scope : HoldScope = record {
            was_critical = s.critical;
            did_hold = true;
            task = (s.kernel.threads th).task;
            thread = th;
          } in
          subst (λ o. Returns o (Starts s th))
            {x = some (entered scope (record { kernel = held_by s.kernel th; critical = false }))}
            (ground (arith, v.joined, v.outside))
            (record {
              thread = refl;
              task = refl;
              was_critical = refl;
              did_hold = refl;
              kernel = refl;
            })
    ]

-- What the destructor of the scope that took the hold leaves
pub destroy-held :
    (L : LinkedList Garbage) (scope : HoldScope) (s : Cpu)
    → scope.did_hold ≡ true
    → (destroy L scope s).kernel
      ≡ Stored.unhold L (set_holding s.kernel scope.thread false) scope.task
unfolding destroy
destroy-held L scope s e = rw (e, destroy) refl

pub destroy-Safely :
    (L : LinkedList Garbage) (scope : HoldScope) (s : Cpu)
    → Safely s.kernel (destroy L scope s).kernel
      × ((destroy L scope s).critical ≡ scope.was_critical)
unfolding destroy
destroy-Safely L scope s = elim (Bool-cases scope.did_hold) [
  | inr e ↦ rw (e, destroy) (Safely-same s.kernel, refl)
  | inl e ↦
      rw (e, destroy)
        (
          Safely-trans (unmarked-Safely s.kernel scope.thread)
              (unhold-Safely L (set_holding s.kernel scope.thread false) scope.task),
          refl,
        )
]
