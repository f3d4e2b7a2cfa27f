-- ===== src/Examples/Store.antt =====
-- A kernel with one user task and one thread, which runs on CPU 0.
use alux.Prelude.{update, true, false, none, some, [], ◌∷◌, minus_one}
use alux.Kernel.{Kernel, Thread, empty_kernel, empty_thread, empty_task}
use alux.Tasks.Task.{Task}

abbrev pub user_task : Task
user_task = record {
  identifier = 1;
  uid = 7;
  in_scheduler = true;
  retain_count = 1;
  hold_count = 0;
  kill_reason = minus_one;
}

abbrev pub runner : Thread
runner = record empty_thread { task = 0; in_task = true; in_scheduler = true }

-- Thread 5 belongs to task 0.
abbrev pub running : Kernel
running = record empty_kernel {
  tasks = update (λ _. empty_task) 0 user_task;
  threads = update (λ _. empty_thread) 5 runner;
  objs =
      update (λ _. record { deadline = 0; running = false }) 5
        (record { deadline = 0; running = true });
  run_queue = 5 ∷ [];
  collector_thread = 9;
  thread_lists = update (λ _. []) 0 (5 ∷ []);
  task_list = 0 ∷ [];
  current = update (λ _. none) 0 (some 5);
}
