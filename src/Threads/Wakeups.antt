-- ===== src/Threads/Wakeups.antt =====
-- Sleeping threads under calls of `Sleep`, `SleepInfinite` and `Unsleep` in any order, on any CPUs,
-- and with other steps of the kernel between the two sections of a sleep.
use alux.Prelude.{
  ℕ, ◌≡◌, Bool, true, false, ◌==◌, ◌||◌, not, ◌&&◌, subst, update, some, inl, inr, Bool-cases,
  arith,
}
use alux.Kernel.{Kernel}
use alux.Scheduler.Main.{infinite}
use alux.Scheduler.Spares.{Spares}
use alux.Scheduler.Selection.{can_retain, is_eligible}
use alux.Threads.Access.{get_task, get_scheduler, get_task_scheduler}
use alux.Threads.Sleep.{
  Progress, returned, suspended, put_sleep, arm_timeout, nanos_from_now, sleep, sleep_infinite,
  finish_sleep, cancel, unsleep,
}

-- The kernel, the threads between the two sections of a sleep, and the threads that somebody woke
-- since they last came back from a sleep.
pub record World : Type 0 where
  pub kernel : Kernel
  pub parked : ℕ → Bool
  pub woken : ℕ → Bool

-- What the first section of a sleep leads to.
abbrev pub begun : World → ℕ → Kernel × Progress → World
begun w th (k, returned) = record w { kernel = k; woken = update w.woken th false }
begun w th (k, suspended) = record w { kernel = k; parked = update w.parked th true }

pub data Reach : World → Type 0 where
  start :
      (k : Kernel)
      → ((x : ℕ) → (k.threads x).sleep_state.sleeping ≡ false)
      → ((x : ℕ) → (k.threads x).sleep_state.cancelled ≡ false)
      → Reach (record { kernel = k; parked = λ x. false; woken = λ x. false })
  sleeps :
      {w : World}
      → Reach w
      → (cpu now : ℕ) (to_ticks : ℕ → ℕ) (nanos th : ℕ) → w.kernel.current cpu ≡ some th
      → w.parked th ≡ false
      → (r : Kernel × Progress) → sleep w.kernel cpu now to_ticks nanos ≡ some r
      → Reach (begun w th r)
  sleeps_infinite :
      {w : World}
      → Reach w
      → (cpu th : ℕ) → w.kernel.current cpu ≡ some th
      → w.parked th ≡ false
      → (r : Kernel × Progress) → sleep_infinite w.kernel cpu ≡ some r
      → Reach (begun w th r)
  wakes :
      {w : World}
      → Reach w
      → (th : ℕ) (k : Kernel) → unsleep w.kernel th ≡ some k
      → Reach (record w { kernel = k; woken = update w.woken th true })
  comes_back :
      {w : World}
      → Reach w
      → (th : ℕ) → w.parked th ≡ true
      → Reach (record w {
        kernel = finish_sleep w.kernel th;
        parked = update w.parked th false;
        woken = update w.woken th false;
      })
  -- Any other step, which is not of a call of `SleepState`.
  others :
      {w : World} → Reach w → (k : Kernel) → Spares w.kernel k → Reach (record w { kernel = k })

-- `sleeping` says whether the thread is between the sections; a wake-up that no sleep has taken up
-- yet is in `cancelled`, or has cleared the deadline.
record Inv (w : World) : Type 0 where
  sleeping : (x : ℕ) → (w.kernel.threads x).sleep_state.sleeping ≡ w.parked x
  noted :
      (x : ℕ)
      → w.woken x ≡ true
      → w.parked x ≡ false
      → (w.kernel.threads x).sleep_state.cancelled ≡ true
  cleared : (x : ℕ) → w.woken x ≡ true → w.parked x ≡ true → (w.kernel.objs x).deadline ≡ 0

-- The two ways in which the first section ends.
abbrev pub passed : Kernel → ℕ → Kernel
passed k th = put_sleep k th (record ((k.threads th).sleep_state) { cancelled = false })

abbrev armed : Kernel → ℕ → ℕ → Kernel
armed k th deadline =
    arm_timeout (put_sleep k th (record ((k.threads th).sleep_state) { sleeping = true })) th
      deadline

data Begins (k : Kernel) (th : ℕ) : Kernel × Progress → Type 0 where
  passes : Begins k th (passed k th, returned)
  arms :
      (deadline : ℕ)
      → (k.threads th).sleep_state.cancelled ≡ false
      → Begins k th (armed k th deadline, suspended)

Begins-Inv :
    {w : World} (th : ℕ) {r : Kernel × Progress}
    → w.parked th ≡ false
    → Begins w.kernel th r
    → Inv w
    → Inv (begun w th r)
unfolding arm_timeout
Begins-Inv th h passes v = record {
  sleeping = λ x. ground (arith, v.sleeping x);
  noted = λ x e p. ground (arith, v.noted x);
  cleared = λ x e p. ground (arith, v.cleared x);
}
Begins-Inv th h (arms d c) v = record {
  sleeping = λ x. ground (arith, v.sleeping x);
  noted = λ x e p. ground (arith, v.noted x);
  cleared = λ x e p. ground (arith, v.cleared x, v.noted th);
}

sleep-Begins :
    (k : Kernel) (cpu now : ℕ) (to_ticks : ℕ → ℕ) (nanos th : ℕ) (r : Kernel × Progress)
    → k.current cpu ≡ some th
    → sleep k cpu now to_ticks nanos ≡ some r
    → Begins k th r
unfolding sleep arm_timeout get_task_scheduler get_task get_scheduler
sleep-Begins k cpu now to_ticks nanos th r e q =
    elim (Bool-cases ((k.threads th).sleep_state.cancelled || (nanos == 0))) [
      | inl c ↦ subst (Begins k th) (ground arith) passes
      | inr c ↦
          subst (Begins k th) (ground arith)
            (arms (nanos_from_now now to_ticks nanos) (ground arith))
    ]

sleep_infinite-Begins :
    (k : Kernel) (cpu th : ℕ) (r : Kernel × Progress)
    → k.current cpu ≡ some th
    → sleep_infinite k cpu ≡ some r
    → Begins k th r
unfolding sleep_infinite arm_timeout get_task_scheduler get_task get_scheduler
sleep_infinite-Begins k cpu th r e q = elim (Bool-cases ((k.threads th).sleep_state.cancelled)) [
  | inl c ↦ subst (Begins k th) (ground arith) passes
  | inr c ↦ subst (Begins k th) (ground arith) (arms infinite (ground arith))
]

unsleep-Inv :
    {w : World} (th : ℕ) (k : Kernel)
    → unsleep w.kernel th ≡ some k
    → Inv w
    → Inv (record w { kernel = k; woken = update w.woken th true })
unfolding unsleep cancel get_task_scheduler get_task get_scheduler
unsleep-Inv {w} th k q v = record {
  sleeping = λ x. ground (arith, v.sleeping x);
  noted = λ x e p. ground (arith, v.noted x, v.sleeping x);
  cleared = λ x e p. ground (arith, v.cleared x, v.sleeping x);
}

Reach-Inv : {w : World} → Reach w → Inv w
unfolding finish_sleep
Reach-Inv (start k h h') = record { sleeping = h; noted = λ x e. cc; cleared = λ x e. cc }
Reach-Inv (sleeps {w} r cpu now to_ticks nanos th e h k' q) =
    Begins-Inv th h (sleep-Begins w.kernel cpu now to_ticks nanos th k' e q) (Reach-Inv r)
Reach-Inv (sleeps_infinite {w} r cpu th e h k' q) =
    Begins-Inv th h (sleep_infinite-Begins w.kernel cpu th k' e q) (Reach-Inv r)
Reach-Inv (wakes r th k q) = unsleep-Inv th k q (Reach-Inv r)
Reach-Inv (comes_back r th h) =
    let v = Reach-Inv r in
    record {
      sleeping = λ x. ground (arith, v.sleeping x);
      noted = λ x e p. ground (arith, v.noted x);
      cleared = λ x e p. ground (arith, v.cleared x);
    }
Reach-Inv (others r k s) =
    let v = Reach-Inv r in
    record {
      sleeping = λ x. ground (arith, v.sleeping x, s.sleep_state x);
      noted = λ x e p. ground (arith, v.noted x, s.sleep_state x);
      cleared = λ x e p. ground (arith, v.cleared x, v.sleeping x, s.cleared x);
    }

-- A wake-up clears the way for a thread that sleeps. In every state that is reached, if a thread was
-- woken since it last came back from a sleep, and is suspended in one, then its deadline holds it up
-- at no time: the scheduler may pick it as soon as no CPU runs it, if it can be retained.
pub woken_due :
    {w : World} (th now : ℕ)
    → Reach w
    → w.woken th ≡ true
    → w.parked th ≡ true
    → is_eligible w.kernel now th ≡ can_retain w.kernel th && not (w.kernel.objs th).running
woken_due {w} th now r e p = ground (arith, (Reach-Inv r).cleared th)

-- A wake-up that comes before the sleep is not lost. In every state that is reached, if the current
-- thread of a CPU was woken since it last came back from a sleep, and is not suspended in one, then
-- `Sleep` for any time and `SleepInfinite` return to it at once, and the wake-up is used up.
pub woken_returns :
    {w : World} (th cpu now : ℕ) (to_ticks : ℕ → ℕ) (nanos : ℕ)
    → Reach w
    → w.woken th ≡ true
    → w.parked th ≡ false
    → w.kernel.current cpu ≡ some th
    → (sleep w.kernel cpu now to_ticks nanos ≡ some (passed w.kernel th, returned))
      × (sleep_infinite w.kernel cpu ≡ some (passed w.kernel th, returned))
unfolding sleep sleep_infinite
woken_returns {w} th cpu now to_ticks nanos r e p q =
    let v = Reach-Inv r in (ground (arith, v.noted th), ground (arith, v.noted th))
