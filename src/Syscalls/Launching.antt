-- ===== src/Syscalls/Launching.antt =====
-- What `LaunchThreadSyscall` of kernel/src/syscall/thread.cpp does.
use alux.Prelude.{
  ℕ, refl, ◌^◌, ◌%◌, ◌<◌, ◌≡◌, ◌++◌, [], ◌∷◌, none, some, true, false, List, LinkedList, IdMap,
  Returns, arith,
}
use alux.Kernel.{Kernel, Garbage}
use alux.Tasks.Task
use alux.Tasks.Stored
use alux.Threads.Access.{get_task, get_scheduler}
use alux.Threads.Counts.{new_thread, release}
use alux.Threads.Life.{create_thread, add_to_task}
use alux.Syscalls.Results.{Ret, integer32}
use alux.Threads.Starting.{
  launched, create_thread-eq, add_to_task-eq, add_to_scheduler-eq, release-scheduled,
}
use alux.Syscalls.Threads.{refused, started, launch_thread}

-- What a launch leaves: the thread is idle and at the back of the list of the scheduler, it stands
-- in the list of its task under its new identifier, and its task has the references it had.
pub record IsLaunched (k : Kernel) (task addr ident : ℕ) (ths : List ℕ) (r : Kernel × Ret)
    : Type 0 where
  pub result : r.1 ≡ integer32 (ident % 2 ^ 32)
  pub run_queue : r.0.run_queue ≡ k.run_queue ++ addr ∷ []
  pub threads : r.0.thread_lists task ≡ ths
  pub task_kept : r.0.tasks task ≡ k.tasks task
  pub thread_task : (r.0.threads addr).task ≡ task
  pub thread_identifier : (r.0.threads addr).identifier ≡ ident
  pub thread_idle : (r.0.threads addr).retain_count ≡ 0
  pub thread_joined : (r.0.threads addr).in_task ≡ true
  pub not_running : (r.0.objs addr).running ≡ false

module _ (L : LinkedList Garbage) (P : LinkedList ℕ) (M : IdMap) where
  -- When the task's list has no identifier left for the new thread, `LaunchThreadSyscall` does not
  -- return: the `Release` of a thread that is in no task fails the assertion of `GetTask`.
  pub launch_thread_panics :
      (k : Kernel) (task addr ident deadline : ℕ)
      → M.add (k.thread_lists task) addr ≡ none
      → launch_thread L P M k task addr ident deadline ≡ none
  unfolding launch_thread create_thread refused started add_to_task release get_task get_scheduler
      new_thread Stored.retain Task.retain
  launch_thread_panics k task addr ident deadline h = ground (arith, h)

  pub launch_thread-launched :
      (k : Kernel) (task addr ident deadline new_ident : ℕ) (ths : List ℕ)
      → (k.tasks task).in_scheduler ≡ true
      → 0 < (k.tasks task).hold_count
      → (k.tasks task).retain_count < 2 ^ 32
      → M.add (k.thread_lists task) addr ≡ some (new_ident, ths)
      → launch_thread L P M k task addr ident deadline
        ≡ some (
          launched P k task addr new_ident deadline ths,
          integer32
              (((launched P k task addr new_ident deadline ths).threads addr).identifier % 2 ^ 32),
        )
  unfolding launch_thread started
  launch_thread-launched k task addr ident deadline new_ident ths s h w e =
      rw
        (
          create_thread-eq k task addr ident s h,
          add_to_task-eq M k task addr ident new_ident ths s e,
          add_to_scheduler-eq P k task addr ident new_ident deadline ths s,
          release-scheduled L P k task addr ident new_ident deadline ths h w,
        )
        refl

  -- A launch for a task that is in the scheduler and held, as the `HoldScope` of the call holds it,
  -- returns if the list of the task has an identifier left and its retain count is a word: the caller
  -- gets the new identifier, the thread stands in the list of the task and at the back of the list of
  -- the scheduler, idle and in the task, and the task is as it was, its references included.
  pub launch_thread-IsLaunched :
      (k : Kernel) (task addr ident deadline new_ident : ℕ) (ths : List ℕ)
      → (k.tasks task).in_scheduler ≡ true
      → 0 < (k.tasks task).hold_count
      → (k.tasks task).retain_count < 2 ^ 32
      → M.add (k.thread_lists task) addr ≡ some (new_ident, ths)
      → Returns
          (launch_thread L P M k task addr ident deadline)
          (IsLaunched k task addr new_ident ths)
  unfolding launched new_thread
  launch_thread-IsLaunched k task addr ident deadline new_ident ths s h w e =
      rw (launch_thread-launched k task addr ident deadline new_ident ths s h w e) (record {
        result = ground arith;
        run_queue = P.add-back k.run_queue addr;
        threads = ground arith;
        task_kept = refl;
        thread_task = ground arith;
        thread_identifier = ground arith;
        thread_idle = ground arith;
        thread_joined = ground arith;
        not_running = ground arith;
      })
