-- ===== src/Tasks/Task.antt =====
-- kernel/src/tasks/task.hpp and task.cpp.
use alux.Prelude.{
  Option, none, some, ℕ, Bool, true, false, not, ◌&&◌, ◌==◌, if◌then◌else◌, inc32, dec32, minus_one,
}

-- `class Task`: the identifier of its base class `anidmap::IdObject`, the counters, the kill reason
-- (an `int`, -1 while alive) and `inScheduler`. The counters and the reason are bit patterns of 32
-- bits.
pub record Task : Type 0 where
  pub identifier : ℕ
  pub uid : ℕ
  pub in_scheduler : Bool
  pub retain_count : ℕ
  pub hold_count : ℕ
  pub kill_reason : ℕ

abbrev pub kill_reason_normal : ℕ
kill_reason_normal = 0

abbrev pub kill_reason_abort : ℕ
kill_reason_abort = 1

abbrev pub kill_reason_permissions : ℕ
kill_reason_permissions = 2

-- `Task::Task`
unfoldable pub new_task : ℕ → Task
new_task user = record {
  identifier = 0;
  uid = user;
  in_scheduler = false;
  retain_count = 0;
  hold_count = 1;
  kill_reason = minus_one;
}

-- `killReason != -1`
abbrev pub is_killed : Task → Bool
is_killed t = not (t.kill_reason == minus_one)

-- The test by which `Release` and `Unhold` throw the task away.
abbrev pub is_done : Task → Bool
is_done t = (t.retain_count == 0) && ((t.hold_count == 0) && is_killed t)

-- `Task::AddToScheduler`, given the identifier by `TaskList::Add`, or `none` where that fails.
unfoldable pub add_to_scheduler : Task → Option ℕ → Task × Bool
add_to_scheduler t none = (t, false)
add_to_scheduler t (some ident) = (record t { identifier = ident; in_scheduler = true }, true)

-- `Task::Retain`
unfoldable pub retain : Task → Task × Bool
retain t =
    if is_killed t && (t.hold_count == 0)
    then (t, false)
    else (record t { retain_count = inc32 t.retain_count }, true)

-- `Task::Release`; the flag says whether it calls `ThrowAway`.
unfoldable pub release : Task → Task × Bool
release t = let t' = record t { retain_count = dec32 t.retain_count } in (t', is_done t')

-- `Task::Hold`
unfoldable pub hold : Task → Task × Bool
hold t = if is_killed t then (t, false) else (record t { hold_count = inc32 t.hold_count }, true)

-- `Task::Unhold`; the flag says whether it calls `ThrowAway`.
unfoldable pub unhold : Task → Task × Bool
unhold t = let t' = record t { hold_count = dec32 t.hold_count } in (t', is_done t')

-- `Task::Kill`
unfoldable pub kill : Task → ℕ → Task
kill t reason = if is_killed t then t else record t { kill_reason = reason }

-- `Task::GetKillReason`
unfoldable pub get_kill_reason : Task → ℕ
get_kill_reason t = t.kill_reason
