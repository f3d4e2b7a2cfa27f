-- ===== src/Examples/Launching.antt =====
-- System calls on threads: instances of the theorems, and tests.
use alux.Prelude.{◌≡◌, refl, none, [], ◌∷◌, Returns, arith}
use alux.Kernel.{Kernel, put_task}
use alux.Syscalls.Threads.{launch_thread}
use alux.Syscalls.Launching.{IsLaunched, launch_thread_panics, launch_thread-IsLaunched}
use alux.Examples.Maps.{sevens, full}
use alux.Examples.Lists.{links, objects}
use alux.Examples.Store.{running, user_task}

-- The task of the running thread, held by the system call.
abbrev calling : Kernel
calling = put_task running 0 (record user_task { hold_count = 1 })

launch_thread_panics_example : launch_thread objects links full calling 0 6 0 0 ≡ none
launch_thread_panics_example = launch_thread_panics objects links full calling 0 6 0 0 refl

launch_thread-IsLaunched_example :
    Returns
      (launch_thread objects links sevens calling 0 6 0 0)
      (IsLaunched calling 0 6 7 (6 ∷ 5 ∷ []))
launch_thread-IsLaunched_example =
    launch_thread-IsLaunched objects links sevens calling 0 6 0 0 7 (6 ∷ 5 ∷ []) refl (omega arith)
      (omega arith) refl
