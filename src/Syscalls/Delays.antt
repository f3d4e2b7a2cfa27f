-- ===== src/Syscalls/Delays.antt =====
-- What sleeps and wake-ups of kernel/src/threads/sleep-state.cpp leave to the scheduler.
use alux.Prelude.{
  Returns-mono, Returns-both, none, ℕ, ◌≡◌, refl, inl, inr, true, Bool-cases, Option, none, some,
  Returns, arith,
}
use alux.Kernel.{Kernel, SleepState}
use alux.Scheduler.Exclusion.{Frame}
use alux.Tasks.Steady.{Steady, Orderly, Orderly-same, Frame-Orderly}
use alux.Threads.Access.{get_task, get_scheduler, get_task_scheduler}
use alux.Threads.Sleep.{sleep, sleep_infinite, arm_timeout, put_sleep}
use alux.Syscalls.Waking.{waking}
use alux.Scheduler.Selection.{can_retain}

sleep-Frame :
    (k : Kernel) (cpu th now nanos : ℕ) (to_ticks : ℕ → ℕ)
    → k.current cpu ≡ some th
    → (k.threads th).in_task ≡ true
    → (k.tasks (k.threads th).task).in_scheduler ≡ true
    → Returns (sleep k cpu now to_ticks nanos) (λ r. Frame k r.0)
unfolding sleep arm_timeout get_task_scheduler get_task get_scheduler
sleep-Frame k cpu th now nanos to_ticks e h s = rw e (ground arith)

sleep_infinite-Frame :
    (k : Kernel) (cpu th : ℕ)
    → k.current cpu ≡ some th
    → (k.threads th).in_task ≡ true
    → (k.tasks (k.threads th).task).in_scheduler ≡ true
    → Returns (sleep_infinite k cpu) (λ r. Frame k r.0)
unfolding sleep_infinite arm_timeout get_task_scheduler get_task get_scheduler
sleep_infinite-Frame k cpu th e h s = rw e (ground arith)

sleep-Steady :
    (k : Kernel) (cpu th now nanos : ℕ) (to_ticks : ℕ → ℕ)
    → k.current cpu ≡ some th
    → (k.threads th).in_task ≡ true
    → (k.tasks (k.threads th).task).in_scheduler ≡ true
    → Returns (sleep k cpu now to_ticks nanos) (λ r. Steady k r.0)
unfolding sleep arm_timeout get_task_scheduler get_task get_scheduler
sleep-Steady k cpu th now nanos to_ticks e h s = rw e (ground arith)

sleep_infinite-Steady :
    (k : Kernel) (cpu th : ℕ)
    → k.current cpu ≡ some th
    → (k.threads th).in_task ≡ true
    → (k.tasks (k.threads th).task).in_scheduler ≡ true
    → Returns (sleep_infinite k cpu) (λ r. Steady k r.0)
unfolding sleep_infinite arm_timeout get_task_scheduler get_task get_scheduler
sleep_infinite-Steady k cpu th e h s = rw e (ground arith)

-- Both relations at once
framed-Orderly :
    {A : Type 0} (k : Kernel) (m : Option (Kernel × A))
    → Returns m (λ r. Frame k r.0)
    → Returns m (λ r. Steady k r.0)
    → Returns m (λ r. Orderly k r.0)
framed-Orderly k m h h' =
    Returns-mono (λ r. Frame k r.0 × Steady k r.0) (λ r. Orderly k r.0) m (Returns-both _ _ m h h')
      (λ r f. Frame-Orderly k r.0 f.0 f.1)

pub sleep-Orderly :
    (k : Kernel) (cpu th now nanos : ℕ) (to_ticks : ℕ → ℕ)
    → k.current cpu ≡ some th
    → (k.threads th).in_task ≡ true
    → (k.tasks (k.threads th).task).in_scheduler ≡ true
    → Returns (sleep k cpu now to_ticks nanos) (λ r. Orderly k r.0)
sleep-Orderly k cpu th now nanos to_ticks e h s =
    framed-Orderly k (sleep k cpu now to_ticks nanos)
      (sleep-Frame k cpu th now nanos to_ticks e h s)
      (sleep-Steady k cpu th now nanos to_ticks e h s)

pub sleep_infinite-Orderly :
    (k : Kernel) (cpu th : ℕ)
    → k.current cpu ≡ some th
    → (k.threads th).in_task ≡ true
    → (k.tasks (k.threads th).task).in_scheduler ≡ true
    → Returns (sleep_infinite k cpu) (λ r. Orderly k r.0)
sleep_infinite-Orderly k cpu th e h s =
    framed-Orderly k (sleep_infinite k cpu) (sleep_infinite-Frame k cpu th e h s)
      (sleep_infinite-Steady k cpu th e h s)

pub arm_timeout-Orderly : (k : Kernel) (x deadline : ℕ) → Orderly k (arm_timeout k x deadline)
unfolding arm_timeout
arm_timeout-Orderly k x deadline =
    Frame-Orderly k (arm_timeout k x deadline)
      (record {
        current = λ c. refl;
        run_queue = refl;
        running = λ y. ground arith;
        in_task = λ y. refl;
        words = λ h y. h y;
        task_words = λ h i. h i;
      })
      (record {
        stays = record {
          in_task = λ y. refl;
          task = λ y. refl;
          in_scheduler = λ i. refl;
          lists = λ i. refl;
          terminals = λ p e. e;
        };
        holds = λ i. refl;
        holding = λ y. refl;
        killed = λ y d. d;
      })

pub put_sleep-Orderly : (k : Kernel) (x : ℕ) (s : SleepState) → Orderly k (put_sleep k x s)
put_sleep-Orderly k x s =
    Frame-Orderly k (put_sleep k x s)
      (record {
        current = λ c. refl;
        run_queue = refl;
        running = λ y. refl;
        in_task = λ y. ground arith;
        words = λ h y. ground (arith, h y);
        task_words = λ h i. h i;
      })
      (record {
        stays = record {
          in_task = λ y. ground arith;
          task = λ y. ground arith;
          in_scheduler = λ i. refl;
          lists = λ i. refl;
          terminals = λ p e. e;
        };
        holds = λ i. refl;
        holding = λ y. ground arith;
        killed = λ y d. ground (arith, d);
      })

-- What a wake-up does
pub waking-Orderly : (k : Kernel) (o : Option ℕ) → Orderly k (waking k o).0
unfolding arm_timeout
waking-Orderly k none = Orderly-same k
waking-Orderly k (some x) = elim (Bool-cases (can_retain k x)) [
  | inr e ↦ rw e (Orderly-same k)
  | inl e ↦ rw e (elim (Bool-cases (k.threads x).sleep_state.sleeping) [
    | inl f ↦ rw f (arm_timeout-Orderly k x 0)
    | inr f ↦ rw f (put_sleep-Orderly k x _)
  ])
]
