-- ===== src/Threads/Sleep.antt =====
-- kernel/src/threads/sleep-state.cpp and kernel/src/util/time.cpp. A call that goes to sleep is two
-- sections under the lock of the thread's `SleepState`: up to the release of the lock inside
-- `RRScheduler::SetTimeout`, and what follows once the scheduler has resumed the thread. `now` is the
-- clock's ticks and `to_ticks` the `ScaleInteger` of its ticks per microsecond.
use alux.Prelude.{
  ℕ, ◌+◌, ◌/◌, ◌%◌, ◌^◌, true, false, ◌||◌, ◌==◌, if◌then◌else◌, Option, some, ◌>>=◌, ◌>>◌,
}
use alux.Kernel.{Kernel, SleepState, put_thread, put_obj}
use alux.Scheduler.Collector.{clear_timeout}
use alux.Scheduler.Main.{infinite}
use alux.Threads.Access.{get_task_scheduler}

-- Whether the call of `Sleep` is over after its first section, or the thread waits for its deadline.
pub data Progress : Type 0 where
  returned suspended : Progress

-- `NanosFromNow`
unfoldable pub nanos_from_now : ℕ → (ℕ → ℕ) → ℕ → ℕ
nanos_from_now now to_ticks nanos = (now + to_ticks (nanos / 1000)) % 2 ^ 64

abbrev pub put_sleep : Kernel → ℕ → SleepState → Kernel
put_sleep k th s = put_thread k th (record (k.threads th) { sleep_state = s })

-- `RRScheduler::SetTimeout` up to the release of the lock
unfoldable pub arm_timeout : Kernel → ℕ → ℕ → Kernel
arm_timeout k th deadline = put_obj k th (record (k.objs th) { deadline = deadline })

-- `SleepState::Sleep` up to the release of the lock
unfoldable pub sleep : Kernel → ℕ → ℕ → (ℕ → ℕ) → ℕ → Option (Kernel × Progress)
unfolding arm_timeout
sleep k cpu now to_ticks nanos = k.current cpu >>= λ th.
    let s = (k.threads th).sleep_state in
    let k' = put_sleep k th (record s { sleeping = true }) in
    let armed =
      get_task_scheduler k' th
      >> some (arm_timeout k' th (nanos_from_now now to_ticks nanos), suspended) in
    if s.cancelled || (nanos == 0)
    then some (put_sleep k th (record s { cancelled = false }), returned)
    else armed

-- `SleepState::SleepInfinite` up to the release of the lock
unfoldable pub sleep_infinite : Kernel → ℕ → Option (Kernel × Progress)
unfolding arm_timeout
sleep_infinite k cpu = k.current cpu >>= λ th.
    let s = (k.threads th).sleep_state in
    let k' = put_sleep k th (record s { sleeping = true }) in
    let armed = get_task_scheduler k' th >> some (arm_timeout k' th infinite, suspended) in
    if s.cancelled then some (put_sleep k th (record s { cancelled = false }), returned) else armed

-- The last section of `Sleep` and of `SleepInfinite`
unfoldable pub finish_sleep : Kernel → ℕ → Kernel
finish_sleep k th = put_sleep k th (record { sleeping = false; cancelled = false })

-- `SleepState::Cancel`
unfoldable pub cancel : Kernel → ℕ → Option Kernel
cancel k th =
    let s = (k.threads th).sleep_state in
    let wake = get_task_scheduler k th >> some (clear_timeout k th) in
    if s.sleeping then wake else some (put_sleep k th (record s { cancelled = true }))

-- `SleepState::Unsleep`
unfoldable pub unsleep : Kernel → ℕ → Option Kernel
unfolding cancel
unsleep k th = cancel k th
