-- ===== src/Syscalls/Frames.antt =====
-- What the calls of kernel/src/syscall/port.cpp and a launch of thread.cpp leave to the scheduler.
use alux.Prelude.{
  Returns-both, ◌+◌, if◌then◌else◌, ◌==◌, ℕ, ◌≡◌, refl, inl, inr, true, Option-cases, some, List,
  LinkedList, IdMap, All-add, Returns, Returns->>=, occurrences, occurrences-append, arith,
}
use alux.Kernel.{Kernel, Garbage}
use alux.Ipc.Ports as port_ends
use alux.Ipc.Terminals
use alux.Scheduler.Collector.{throw_away}
use alux.Scheduler.Exclusion.{Frame, All-mono}
use alux.Scheduler.Safely.{Safely}
use alux.Tasks.Steady.{Steady, Orderly, Orderly-trans, Frame-Orderly}
use alux.Syscalls.Ports.{create_port, destroy_port}
use alux.Syscalls.Porting.{IsAttached}
use alux.Threads.Counts.{new_thread}
use alux.Threads.Poll.{remove_pending}
use alux.Threads.Ports.{new_port, add_to_thread, dealloc}
use alux.Threads.Starting.{launched}

create_port-Frame :
    (P : LinkedList ℕ) (M : IdMap) (k : Kernel) (th addr : ℕ)
    → Frame k (create_port P M k th addr).0
unfolding create_port add_to_thread dealloc new_port remove_pending
create_port-Frame P M k th addr = record {
  current = λ c. ground arith;
  run_queue = ground arith;
  running = λ x. ground arith;
  in_task = λ x. ground arith;
  words = λ h x. ground (arith, h x, h th);
  task_words = λ h i. ground (arith, h i);
}

create_port-Steady :
    (P : LinkedList ℕ) (M : IdMap) (k : Kernel) (th addr : ℕ)
    → Steady k (create_port P M k th addr).0
unfolding create_port add_to_thread dealloc new_port remove_pending
create_port-Steady P M k th addr = record {
  stays = record {
    in_task = λ x. ground arith;
    task = λ x. ground arith;
    in_scheduler = λ i. ground arith;
    lists = λ i. ground arith;
    terminals = λ p e. ground (arith, e);
  };
  holds = λ i. ground arith;
  holding = λ x. ground arith;
  killed = λ x d. ground (arith, d);
}

dealloc-Steady :
    (P : LinkedList ℕ) (M : IdMap) (k : Kernel) (port : ℕ) → Steady k (dealloc M P k port true)
unfolding dealloc remove_pending new_port
dealloc-Steady P M k port = record {
  stays = record {
    in_task = λ x. ground arith;
    task = λ x. ground arith;
    in_scheduler = λ i. ground arith;
    lists = λ i. ground arith;
    terminals = λ p e. ground (arith, e);
  };
  holds = λ i. ground arith;
  holding = λ x. ground arith;
  killed = λ x d. ground (arith, d);
}

dealloc-Frame :
    (P : LinkedList ℕ) (M : IdMap) (k : Kernel) (port : ℕ) → Frame k (dealloc M P k port true)
unfolding dealloc remove_pending new_port
dealloc-Frame P M k port = record {
  current = λ c. ground arith;
  run_queue = ground arith;
  running = λ x. ground arith;
  in_task = λ x. ground arith;
  words = λ h x. ground (arith, h x, h (k.ports port).thread);
  task_words = λ h i. ground (arith, h i);
}

sever-Frame :
    (L : LinkedList Garbage) (k : Kernel) (p : ℕ)
    → IsAttached k (k.ports p).terminal
    → Returns (port_ends.sever L k p) (Frame k)
unfolding port_ends.sever port_ends.get_terminal Terminals.retain Terminals.sever Terminals.release
    throw_away
sever-Frame L k p h = elim (Option-cases (k.ports p).terminal) [
  | inl e ↦ ground arith
  | inr (t, e) ↦ let h' = rw e at h in ground arith
]

sever-Steady :
    (L : LinkedList Garbage) (k : Kernel) (p : ℕ)
    → IsAttached k (k.ports p).terminal
    → Returns (port_ends.sever L k p) (Steady k)
unfolding port_ends.sever port_ends.get_terminal Terminals.retain Terminals.sever Terminals.release
    throw_away
sever-Steady L k p h = elim (Option-cases (k.ports p).terminal) [
  | inl e ↦ ground arith
  | inr (t, e) ↦ let h' = rw e at h in ground arith
]

pub create_port-Orderly :
    (P : LinkedList ℕ) (M : IdMap) (k : Kernel) (th addr : ℕ)
    → Orderly k (create_port P M k th addr).0
create_port-Orderly P M k th addr =
    Frame-Orderly k (create_port P M k th addr).0 (create_port-Frame P M k th addr)
      (create_port-Steady P M k th addr)

pub destroy_port-Orderly :
    (L : LinkedList Garbage) (P : LinkedList ℕ) (M : IdMap) (k : Kernel) (port : ℕ)
    → IsAttached k (k.ports port).terminal
    → Returns (destroy_port L P M k (some port)) (λ r. Orderly k r.0)
unfolding destroy_port
destroy_port-Orderly L P M k port h =
    Returns->>= (λ k'. Frame k k' × Steady k k') (λ r. Orderly k r.0) (port_ends.sever L k port) _
      (Returns-both (Frame k) (Steady k) (port_ends.sever L k port) (sever-Frame L k port h)
        (sever-Steady L k port h))
      (λ k' f. Orderly-trans (Frame-Orderly k k' f.0 f.1) (
        Frame-Orderly k' (dealloc M P k' port true) (dealloc-Frame P M k' port)
          (dealloc-Steady P M k' port)))

-- A new thread at the back of the list of the scheduler, with a new object at its address
launched-Safely :
    (P : LinkedList ℕ) (k : Kernel) (task addr ident deadline : ℕ) (ths : List ℕ)
    → occurrences addr k.run_queue ≡ 0
    → Safely k (launched P k task addr ident deadline ths)
unfolding launched new_thread
launched-Safely P k task addr ident deadline ths o =
    let k' = launched P k task addr ident deadline ths in
    let back = P.add-back k.run_queue addr in
    record {
      current = λ c. refl;
      invariant = λ v. record {
        joined = rw back (
            All-add _ addr k.run_queue
              (All-mono _ (λ x. (k'.threads x).in_task ≡ true) k.run_queue (λ x q. ground arith)
                v.joined)
              (ground arith));
        enqueued = λ c x e.
            rw back (ground (arith, v.enqueued c x, occurrences-append addr x k.run_queue));
        marked = λ c x e. ground (arith, v.marked c x, v.enqueued c x);
        apart = v.apart;
        words = λ x. ground (arith, v.words x);
        task_words = λ i. ground (arith, v.task_words i);
      };
    }

pub launched-Orderly :
    (P : LinkedList ℕ) (k : Kernel) (task addr ident deadline : ℕ) (ths : List ℕ)
    → occurrences addr k.run_queue ≡ 0
    → ((y : ℕ)
        → occurrences y ths ≡ occurrences y (k.thread_lists task) + (if addr == y then 1 else 0))
    → (k.tasks task).in_scheduler ≡ true
    → Orderly k (launched P k task addr ident deadline ths)
unfolding launched new_thread
launched-Orderly P k task addr ident deadline ths o a here = record {
  safe = launched-Safely P k task addr ident deadline ths o;
  keeps = record {
    placed = λ v. record {
      scheduled = λ x h. ground (arith, v.scheduled x, here);
      listed = λ i x h. ground (arith, a x, v.listed i x);
      terminals = v.terminals;
    };
    entered = λ i h. h;
    holds = λ i. refl;
    holding = λ x h. ground arith;
    killed = λ x h d. ground arith;
  };
}
