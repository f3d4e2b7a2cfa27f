-- ===== src/Tasks/Lifecycle.antt =====
-- The life of a task under any sequence of calls that respects the contract in task.hpp: a caller
-- releases what it retained, unholds what it held, and kills only a task to which it has a reference.
use alux.Prelude.{
  ℕ, ◌+◌, ◌-◌, ◌^◌, ◌<◌, ◌≡◌, ◌≢◌, Bool, true, false, if◌then◌else◌, minus_one, arith,
}
use alux.Tasks.Task
use alux.Tasks.Task.{Task, is_done, is_killed, new_task}

pub data Action : Type 0 where
  retains releases holds unholds : Action
  kills : ℕ → Action

-- A task, the references that callers have to it, and the calls of `ThrowAway` so far.
pub record World : Type 0 where
  pub task : Task
  pub retained : ℕ
  pub held : ℕ
  pub thrown : ℕ

abbrev pub created : ℕ → World
created uid = record { task = new_task uid; retained = 0; held = 1; thrown = 0 }

abbrev one_if : Bool → ℕ
one_if b = if b then 1 else 0

unfoldable pub act : Action → World → World
unfolding Task.retain Task.release Task.hold Task.unhold Task.kill
act retains w =
    let (t, done) = Task.retain w.task in record w { task = t; retained = w.retained + one_if done }
act releases w =
    let (t, done) = Task.release w.task in
    record w { task = t; retained = w.retained - 1; thrown = w.thrown + one_if done }
act holds w = let (t, done) = Task.hold w.task in record w { task = t; held = w.held + one_if done }
act unholds w =
    let (t, done) = Task.unhold w.task in
    record w { task = t; held = w.held - 1; thrown = w.thrown + one_if done }
act (kills reason) w = record w { task = Task.kill w.task reason }

-- The contract, with fewer than 2 ^ 31 references of either kind.
abbrev pub Allowed : Action → World → Type 0
Allowed retains w = w.retained + 1 < 2 ^ 31
Allowed releases w = 0 < w.retained
Allowed holds w = w.held + 1 < 2 ^ 31
Allowed unholds w = 0 < w.held
Allowed (kills reason) w = (0 < w.retained + w.held) × (reason ≢ minus_one)

pub data Reach (uid : ℕ) : World → Type 0 where
  start : Reach uid (created uid)
  next : {w : World} → Reach uid w → (a : Action) → Allowed a w → Reach uid (act a w)

pub record Inv (w : World) : Type 0 where
  pub retain_exact : w.task.retain_count ≡ w.retained
  pub hold_exact : w.task.hold_count ≡ w.held
  pub retain_small : w.retained < 2 ^ 31
  pub hold_small : w.held < 2 ^ 31
  pub thrown_exact : w.thrown ≡ one_if (is_done w.task)

act-Inv : {w : World} (a : Action) → Allowed a w → Inv w → Inv (act a w)
unfolding act Task.retain Task.release Task.hold Task.unhold Task.kill
act-Inv retains h v = ground arith
act-Inv releases h v = ground arith
act-Inv holds h v = ground arith
act-Inv unholds h v = ground arith
act-Inv (kills reason) h v = ground arith

-- In every reachable state the two counters are exactly the references that callers have, and
-- `ThrowAway` has been called once if the task is killed with no reference left, and never otherwise.
pub Reach-Inv : {uid : ℕ} {w : World} → Reach uid w → Inv w
unfolding new_task
Reach-Inv start = ground arith
Reach-Inv (next r a h) = act-Inv a h (Reach-Inv r)

act_done : {w : World} (a : Action) → Allowed a w → Inv w → w.thrown ≡ 1 → act a w ≡ w
unfolding act Task.retain Task.release Task.hold Task.unhold Task.kill
act_done retains h v e = ground arith
act_done releases h v e = ground arith
act_done holds h v e = ground arith
act_done unholds h v e = ground arith
act_done (kills reason) h v e = ground arith

-- Once a task has been thrown away, `Retain` and `Hold` fail and no allowed call brings back a
-- reference or throws it away again.
pub thrown_final :
    {uid : ℕ} {w : World}
    → Reach uid w
    → w.thrown ≡ 1
    → (a : Action) → Allowed a w
    → ((Task.retain w.task).1 ≡ false) × ((Task.hold w.task).1 ≡ false) × (act a w ≡ w)
unfolding act Task.retain Task.hold
thrown_final r e a h = let v = Reach-Inv r in (ground arith, ground arith, act_done a h v e)

-- While a caller holds the task, it is not thrown away and `Retain` succeeds, also after a kill.
pub held_safe :
    {uid : ℕ} {w : World}
    → Reach uid w
    → 0 < w.held
    → (w.thrown ≡ 0) × ((Task.retain w.task).1 ≡ true)
unfolding Task.retain
held_safe r h = let v = Reach-Inv r in ground arith

-- The first kill of a live task decides the reason, if it is not -1: `GetKillReason` gives it, also
-- after one more call of `Retain`, `Release`, `Hold`, `Unhold` or `Kill` with any reason.
pub kill_reason_stays :
    (t : Task) (reason : ℕ) (a : Action) (n m k : ℕ)
    → Task.get_kill_reason t ≡ minus_one
    → reason ≢ minus_one
    → Task.get_kill_reason
        (act a (record { task = Task.kill t reason; retained = n; held = m; thrown = k })).task
      ≡ reason
unfolding act Task.retain Task.release Task.hold Task.unhold Task.kill Task.get_kill_reason
kill_reason_stays t reason retains n m k live h = ground arith
kill_reason_stays t reason releases n m k live h = ground arith
kill_reason_stays t reason holds n m k live h = ground arith
kill_reason_stays t reason unholds n m k live h = ground arith
kill_reason_stays t reason (kills other) n m k live h = ground arith
