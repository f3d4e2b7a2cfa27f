-- ===== src/Scheduler/Exclusion.antt =====
-- No thread runs on two CPUs.
use alux.Prelude.{
  first, occurrences-first, All-at, occurrences-rotate, All-rotate, ℕ, ◌^◌, ◌<◌, ◌≡◌, refl, subst,
  inl, inr, true, Option-cases, Option, none, some, List, [], ◌∷◌, LinkedList, All, Returns,
  Returns->>=, Returns-mono, occurrences, arith, ◌>>=◌,
}
use alux.Kernel.{Kernel, Garbage}
use alux.Tasks.Task
use alux.Tasks.Stored
use alux.Scheduler.Collector.{throw_away}
use alux.Threads.Counts.{release}
use alux.Threads.Access.{get_task}
use alux.Scheduler.Switch.{
  Outcome, resumes, waits, find_next, resign_current, retired, claimed, set_current, switch, resume,
  jiffy_us,
}
use alux.Scheduler.Selection.{IsListed, is_eligible, found, retained, find_next-first}

-- What `Thread::Release` leaves alone.
pub record Frame (k k' : Kernel) : Type 0 where
  pub current : (c : ℕ) → k'.current c ≡ k.current c
  pub run_queue : k'.run_queue ≡ k.run_queue
  pub running : (x : ℕ) → (k'.objs x).running ≡ (k.objs x).running
  pub in_task : (x : ℕ) → (k'.threads x).in_task ≡ (k.threads x).in_task
  pub words :
      ((x : ℕ) → (k.threads x).retain_count < 2 ^ 32)
      → (x : ℕ) → (k'.threads x).retain_count < 2 ^ 32
  pub task_words :
      ((i : ℕ) → (k.tasks i).retain_count < 2 ^ 32) → (i : ℕ) → (k'.tasks i).retain_count < 2 ^ 32

pub release-Frame :
    (L : LinkedList Garbage) (k : Kernel) (x : ℕ)
    → (k.threads x).in_task ≡ true
    → Returns (release L k x) (Frame k)
unfolding release Stored.release throw_away Task.release get_task
release-Frame L k x h = ground arith

-- The list and the CPUs: every entry went through `AddToTask`, a current thread is on the list and
-- marked as running, no thread is current on two CPUs, and the counters are words.
pub record Inv (k : Kernel) : Type 0 where
  pub joined : All (λ x. (k.threads x).in_task ≡ true) k.run_queue
  pub enqueued : (c th : ℕ) → k.current c ≡ some th → 0 < occurrences th k.run_queue
  pub marked : (c th : ℕ) → k.current c ≡ some th → (k.objs th).running ≡ true
  pub apart : (c d th : ℕ) → k.current c ≡ some th → k.current d ≡ some th → c ≡ d
  pub words : (x : ℕ) → (k.threads x).retain_count < 2 ^ 32
  pub task_words : (i : ℕ) → (k.tasks i).retain_count < 2 ^ 32

pub All-mono : (Q R : ℕ → Type 0) (xs : List ℕ) → ((x : ℕ) → Q x → R x) → All Q xs → All R xs
All-mono Q R [] f v = tt
All-mono Q R (x ∷ xs) f v = (f x v.0, All-mono Q R xs f v.1)

pub Frame-Inv : (k k' : Kernel) → Frame k k' → Inv k → Inv k'
Frame-Inv k k' f v = record {
  joined = rw f.run_queue (
      All-mono (λ x. (k.threads x).in_task ≡ true) (λ x. (k'.threads x).in_task ≡ true) k.run_queue
        (λ x h. ground (arith, f.in_task x)) v.joined);
  enqueued = rw f.run_queue (λ c th e. v.enqueued c th (ground (arith, f.current c)));
  marked = λ c th e. ground (arith, f.current c, f.running th, v.marked c th);
  apart = λ c d th e e'. v.apart c d th (ground (arith, f.current c)) (ground (arith, f.current d));
  words = f.words v.words;
  task_words = f.task_words v.task_words;
}

pub joined-IsListed :
    (k : Kernel)
    → Inv k
    → (xs : List ℕ) → All (λ x. (k.threads x).in_task ≡ true) xs
    → All (IsListed k) xs
joined-IsListed k v xs =
    All-mono (λ x. (k.threads x).in_task ≡ true) (IsListed k) xs
      (λ x h. record { joined = h; word = v.words x; task_word = v.task_words (k.threads x).task })

module _ (L : LinkedList Garbage) (P : LinkedList ℕ) where
  retired-Inv :
      (k : Kernel) (cpu th : ℕ) → Inv k → k.current cpu ≡ some th → Inv (retired P k cpu th)
  retired-Inv k cpu th v e = record {
    joined = All-rotate P _ th k.run_queue (v.enqueued cpu th e) v.joined;
    enqueued = λ c x h.
        ground (arith, v.enqueued c x, occurrences-rotate P th x k.run_queue (v.enqueued cpu th e));
    marked = λ c x h. ground (arith, v.marked c x, v.apart c cpu th);
    apart = λ c d x h h'. ground (arith, v.apart c d x);
    words = v.words;
    task_words = v.task_words;
  }

  pub resign_current-Inv :
      (k : Kernel) (cpu : ℕ)
      → Inv k
      → Returns (resign_current L P k cpu) (λ k'. Inv k' × (k'.current cpu ≡ none))
  unfolding resign_current
  resign_current-Inv k cpu v = elim (Option-cases (k.current cpu)) [
    | inl e ↦ rw (e, resign_current) (v, e)
    | inr (th, e) ↦
        subst (λ r. Returns r (λ k'. Inv k' × (k'.current cpu ≡ none))) (ground arith)
          (Returns-mono (Frame (retired P k cpu th)) (λ k'. Inv k' × (k'.current cpu ≡ none))
            (release L (retired P k cpu th) th)
            (release-Frame L (retired P k cpu th) th
              (All-at _ th k.run_queue v.joined (v.enqueued cpu th e)))
            λ k' f. (Frame-Inv _ k' f (retired-Inv k cpu th v e), ground (arith, f.current cpu)))
  ]

  claimed-Inv :
      (k : Kernel) (cpu now x : ℕ)
      → Inv k
      → 0 < occurrences x k.run_queue
      → is_eligible k now x ≡ true
      → Inv (set_current (claimed (retained k x) x) cpu (some x))
  claimed-Inv k cpu now x v h e = record {
    joined =
        All-mono (λ y. (k.threads y).in_task ≡ true)
          (λ y. ((retained k x).threads y).in_task ≡ true) k.run_queue (λ y q. ground arith)
          v.joined;
    enqueued = λ c y q. ground (arith, v.enqueued c y);
    marked = λ c y q. ground (arith, v.marked c y);
    apart = λ c d y q q'. ground (arith, v.apart c d y, v.marked c y, v.marked d y);
    words = λ y. ground (arith, v.words y);
    task_words = λ i. ground (arith, v.task_words i);
  }

-- The CPU resumes the thread that is current on it, or waits with none.
abbrev pub Agrees : Kernel → ℕ → ℕ → Outcome → Type 0
Agrees k cpu timeout (resumes th t) = (k.current cpu ≡ some th) × (t ≡ timeout)
Agrees k cpu timeout (waits t) = (k.current cpu ≡ none) × (t ≡ timeout)

module _ (L : LinkedList Garbage) (P : LinkedList ℕ) where
  abbrev Switched : ℕ → (ℕ → ℕ) → Kernel × Outcome → Type 0
  Switched cpu scale r = Inv r.0 × Agrees r.0 cpu (scale jiffy_us) r.1

  resume-Inv :
      (k : Kernel) (cpu now : ℕ) (scale : ℕ → ℕ)
      → Inv k
      → k.current cpu ≡ none
      → Returns
          (find_next L k now k.run_queue >>= λ r. resume L P r.0 cpu scale r.1)
          (Switched cpu scale)
  unfolding resume get_task
  resume-Inv k cpu now scale v e =
      rw (find_next-first L k now k.run_queue (joined-IsListed k v k.run_queue v.joined))
        (go (first (is_eligible k now) k.run_queue) refl)
    where
      go :
          (o : Option ℕ)
          → first (is_eligible k now) k.run_queue ≡ o
          → Returns (resume L P (found k o).0 cpu scale (found k o).1) (Switched cpu scale)
      go none q = (v, (e, refl))
      go (some x) q =
          let (h, fit) = occurrences-first (is_eligible k now) k.run_queue x q in
          let k' = set_current (claimed (retained k x) x) cpu (some x) in
          let result : Kernel × Outcome = (k', resumes x (scale jiffy_us)) in
          subst (λ r. Returns r (Switched cpu scale)) {x = some result}
            (ground (arith, All-at (λ y. (k.threads y).in_task ≡ true) x k.run_queue v.joined h))
            (claimed-Inv L P k cpu now x v h fit, (ground arith, refl))

  -- `Switch` returns, that is, no assertion fails in it, and it keeps the invariant: whatever CPU
  -- switches at whatever time, no thread is current on two CPUs, every current thread is marked as
  -- running and stays on the list. The CPU then resumes the thread that is current on it for one
  -- jiffy, or has no current thread and waits for one.
  pub switch-Inv :
      (k : Kernel) (cpu now : ℕ) (scale : ℕ → ℕ)
      → Inv k
      → Returns (switch L P k cpu now scale) (λ r. Inv r.0 × Agrees r.0 cpu (scale jiffy_us) r.1)
  unfolding switch
  switch-Inv k cpu now scale v =
      Returns->>= (λ k'. Inv k' × (k'.current cpu ≡ none)) (Switched cpu scale)
        (resign_current L P k cpu) _ (resign_current-Inv L P k cpu v)
        (λ k' w. resume-Inv k' cpu now scale w.0 w.1)
