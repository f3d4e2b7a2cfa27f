-- ===== src/Syscalls/Waking.antt =====
-- What `WakeupSyscall` of kernel/src/syscall/thread.cpp does.
use alux.Prelude.{
  ℕ, ◌≡◌, refl, true, if◌then◌else◌, ◌==◌, Bool-cases, inl, inr, Option, none, some, List, [], ◌∷◌,
  LinkedList, All, All-at, occurrences-first, first, update_twice, arith,
}
use alux.Kernel.{Kernel, Garbage}
use alux.Scheduler.Collector.{clear_timeout}
use alux.Scheduler.Selection.{
  IsListed, can_retain, retained, retain_refused, retain_allowed, release-retained,
}
use alux.Threads.Access.{get_task, get_scheduler, get_task_scheduler}
use alux.Threads.Sleep.{put_sleep, cancel, unsleep}
use alux.Syscalls.Results.{Ret, empty, error, error_no_thread}
use alux.Syscalls.Threads.{find, woken, wakeup}

-- What is found: a thread with the identifier, if it can be retained.
abbrev pub hit : Kernel → Option ℕ → Kernel × Option ℕ
hit k none = (k, none)
hit k (some x) = if can_retain k x then (retained k x, some x) else (k, none)

pub find-first :
    (k : Kernel) (ident : ℕ) (xs : List ℕ)
    → All (IsListed k) xs
    → find k ident xs ≡ some (hit k (first (λ x. (k.threads x).identifier == ident) xs))
unfolding find first
find-first k ident [] v = refl
find-first k ident (x ∷ xs) v = elim (Bool-cases ((k.threads x).identifier == ident)) [
  | inr e ↦ rw e (find-first k ident xs v.1)
  | inl e ↦ elim (Bool-cases (can_retain k x)) [
    | inl c ↦ rw (retain_allowed k x v.0 c) (rw (e, c) refl)
    | inr c ↦ rw (retain_refused k x v.0 c) (rw (e, c) refl)
  ]
]

-- What a wake-up does to a thread: its deadline is gone if it sleeps, and its next sleep is if not.
abbrev pub awakened : Kernel → ℕ → Kernel
awakened k x =
    let s = (k.threads x).sleep_state in
    if s.sleeping then clear_timeout k x else put_sleep k x (record s { cancelled = true })

-- A thread that is retained, woken and released is as if it was only woken.
woken-retained :
    (L : LinkedList Garbage) (k : Kernel) (x : ℕ)
    → IsListed k x
    → (k.tasks (k.threads x).task).in_scheduler ≡ true
    → can_retain k x ≡ true
    → woken L (retained k x) (some x) ≡ some (awakened k x, empty)
unfolding woken unsleep cancel get_task_scheduler get_task get_scheduler
woken-retained L k x v s c = elim (Bool-cases (k.threads x).sleep_state.sleeping) [
  | inl e ↦
      let v' : IsListed (clear_timeout k x) x = record {
        joined = v.joined;
        word = v.word;
        task_word = v.task_word;
      } in
      ground (arith, v.joined, release-retained L (clear_timeout k x) x v' c)
  | inr e ↦
      let t = k.threads x in
      let k' = put_sleep k x (record (t.sleep_state) { cancelled = true }) in
      let v' : IsListed k' x = record {
        joined = ground (arith, v.joined);
        word = ground (arith, v.word);
        task_word = ground (arith, v.task_word);
      } in
      ground (
        arith,
        v.joined,
        release-retained L k' x v' (ground arith),
        update_twice k.threads x ((retained k x).threads x) ((retained k' x).threads x),
        update_twice k.threads x (k'.threads x) ((retained k' x).threads x),
      )
]

-- What the caller gets: the thread with the identifier is woken if it lives.
abbrev pub waking : Kernel → Option ℕ → Kernel × Ret
waking k none = (k, error error_no_thread)
waking k (some x) = if can_retain k x then (awakened k x, empty) else (k, error error_no_thread)

woken-hit :
    (L : LinkedList Garbage) (k : Kernel) (o : Option ℕ)
    → ((x : ℕ) → o ≡ some x → IsListed k x × ((k.tasks (k.threads x).task).in_scheduler ≡ true))
    → woken L (hit k o).0 (hit k o).1 ≡ some (waking k o)
unfolding woken
woken-hit L k none v = refl
woken-hit L k (some x) v = elim (Bool-cases (can_retain k x)) [
  | inl c ↦ rw c (woken-retained L k x (v x refl).0 (v x refl).1 c)
  | inr c ↦ rw c refl
]

-- `WakeupSyscall` over the list of a task whose threads are all in the task, with counters of 32
-- bits, and in the scheduler: it returns. The first thread with the identifier is woken if it and
-- its task live: its deadline is cleared if it sleeps, and its next sleep is cancelled if not. Nothing
-- else changes, also none of the counters that the call raises on the way. Without such a thread
-- nothing changes, and the caller gets the error.
pub wakeup-waking :
    (L : LinkedList Garbage) (k : Kernel) (task : ℕ) (args : ℕ → ℕ)
    → All (IsListed k) (k.thread_lists task)
    → All (λ x. (k.tasks (k.threads x).task).in_scheduler ≡ true) (k.thread_lists task)
    → wakeup L k task args
      ≡ some (waking k (first (λ x. (k.threads x).identifier == args 0) (k.thread_lists task)))
unfolding wakeup
wakeup-waking L k task args v s =
    let xs = k.thread_lists task in
    rw (find-first k (args 0) xs v) (
      woken-hit L k (first (λ x. (k.threads x).identifier == args 0) xs) (λ x e.
        let (at, h) = occurrences-first (λ x. (k.threads x).identifier == args 0) xs x e in
        (All-at (IsListed k) x xs v at, All-at _ x xs s at)))
