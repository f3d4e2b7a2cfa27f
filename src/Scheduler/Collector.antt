-- ===== src/Scheduler/Collector.antt =====
-- kernel/src/scheduler/garbage-collector.cpp and garbage-object.cpp: putting an object on the
-- collector's list. Waking the collector is rr-scheduler.cpp.
use alux.Prelude.{ℕ, LinkedList}
use alux.Kernel.{Kernel, Garbage, put_obj}

-- `RRScheduler::ClearTimeout`
abbrev pub clear_timeout : Kernel → ℕ → Kernel
clear_timeout k th = put_obj k th (record (k.objs th) { deadline = 0 })

-- `RRScheduler::ClearGarbageTimeout`
abbrev pub clear_garbage_timeout : Kernel → Kernel
clear_garbage_timeout k = clear_timeout k k.collector_thread

module _ (L : LinkedList Garbage) where
  -- `GarbageCollector::Add`
  unfoldable pub add : Kernel → Garbage → Kernel
  add k obj = clear_garbage_timeout (record k { garbage = L.add k.garbage obj })

  -- `GarbageObject::ThrowAway`
  unfoldable pub throw_away : Kernel → Garbage → Kernel
  unfolding add
  throw_away k obj = add k obj
