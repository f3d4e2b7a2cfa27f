-- ===== src/Syscalls/Porting.antt =====
-- The ports of threads under `CreatePortSyscall` and `DestroyPortSyscall` of
-- kernel/src/syscall/port.cpp, and messages to them.
use alux.Prelude.{
  ℕ, ◌+◌, ◌^◌, ◌<◌, ◌≡◌, refl, Option-cases, true, Option, none, some, List, inl, inr, subst,
  LinkedList, IdMap, Returns, Returns->>=, occurrences, arith, ◌>>=◌,
}
use alux.Kernel.{Kernel, Message, Garbage, put_port, put_thread}
use alux.Ipc.Ports as port_ends
use alux.Ipc.Terminals
use alux.Ipc.Terminals.{is_some}
use alux.Scheduler.Collector.{throw_away}
use alux.Syscalls.Ports.{create_port, destroy_port}
use alux.Syscalls.Results.{empty}
use alux.Threads.Pending.{
  IsTidy, IsUnused, remove_pending-IsTidy, remove_pending_lem, port_list-remove_pending,
  send_to_this-IsTidy,
}
use alux.Threads.Poll.{remove_pending, send_to_this}
use alux.Threads.Ports.{new_port, add_to_thread, dealloc}
use alux.Threads.Access.{get_task_scheduler}

-- A port that no thread has, with a new object at its address.
fresh-IsTidy :
    (k : Kernel) (th addr : ℕ) → IsTidy k → IsUnused k addr → IsTidy (put_port k addr (new_port th))
unfolding new_port
fresh-IsTidy k th addr v u = record {
  pending = λ p t. ground (arith, v.pending p t, u.unheard t);
  own = λ p t d. ground (arith, v.own p t, u.unlisted t);
  once = v.once;
}

-- The port in the list of its thread.
abbrev listed : Kernel → (th addr ident : ℕ) → List ℕ → Kernel
listed k th addr ident ports =
    put_thread (put_port k addr (record (new_port th) { identifier = ident })) th
      (record (k.threads th) { port_list = ports })

module _ (P : LinkedList ℕ) (M : IdMap) where
  listed-IsTidy :
      (k : Kernel) (th addr ident : ℕ) (ports : List ℕ)
      → IsTidy k
      → IsUnused k addr
      → M.add (k.threads th).port_list addr ≡ some (ident, ports)
      → IsTidy (listed k th addr ident ports)
  unfolding new_port
  listed-IsTidy k th addr ident ports v u e =
      let grown = λ (p : ℕ). M.occurrences-add (k.threads th).port_list addr ident ports p e in
      record {
        pending = λ p t. ground (arith, v.pending p t, u.unheard t);
        own = λ p t d. ground (arith, v.own p t, u.unlisted t, grown p);
        once = λ p t. ground (arith, v.once p t, u.unlisted t, grown p);
      }

  pub create_port-IsTidy :
      (k : Kernel) (th addr : ℕ) → IsTidy k → IsUnused k addr → IsTidy (create_port P M k th addr).0
  unfolding create_port add_to_thread dealloc new_port
  create_port-IsTidy k th addr v u = elim (Option-cases (M.add (k.threads th).port_list addr)) [
    | inl e ↦
        subst IsTidy {x = put_port k addr (new_port th)} (ground arith) (fresh-IsTidy k th addr v u)
    | inr ((ident, ports), e) ↦
        subst IsTidy {x = listed k th addr ident ports} (ground arith)
          (listed-IsTidy k th addr ident ports v u e)
  ]

  -- Out of all lists, and deleted.
  dealloc-IsUnused :
      (k : Kernel) (port : ℕ)
      → IsTidy k
      → IsTidy (dealloc M P k port true) × IsUnused (dealloc M P k port true) port
  unfolding dealloc
  dealloc-IsUnused k port v =
      let th = (k.ports port).thread in
      let ps = (k.threads th).port_list in
      let k1 = put_thread k th (record (k.threads th) { port_list = M.remove ps port }) in
      let v1 : IsTidy k1 = record {
        pending = λ p t. ground (arith, v.pending p t);
        own = λ p t d. ground (arith, v.own p t, M.occurrences-remove ps port p);
        once = λ p t. ground (arith, v.once p t, M.occurrences-remove ps port p);
      } in
      let k2 = remove_pending P k1 port in
      let v2 = remove_pending-IsTidy P k1 port v1 in
      let (quiet, home) = remove_pending_lem P k1 port in
      let lists = port_list-remove_pending P k1 port in
      let out : (t : ℕ) → occurrences port (k2.threads t).port_list ≡ 0 = λ t.
        ground (arith, lists t, v.own port t, v.once port t, M.occurrences-remove ps port port) in
      (
        record {
          pending = λ p t. ground (arith, v2.pending p t, v2.pending port t, quiet, home);
          own = λ p t d. ground (arith, v2.own p t, out t, home);
          once = v2.once;
        },
        record { unlisted = out; unheard = λ t. ground (arith, v2.pending port t, quiet) },
      )

-- What a severed port has lost: its terminal, which has this port and is retained.
abbrev pub IsAttached : Kernel → Option ℕ → Type 0
IsAttached k none = Unit
IsAttached k (some t) =
    (is_some (k.terminals t).port ≡ true) × ((k.terminals t).retain_count + 1 < 2 ^ 31)

-- A step that leaves the threads and the places of their ports alone.
record SamePorts (k k' : Kernel) : Type 0 where
  threads : k'.threads ≡ k.threads
  home : (p : ℕ) → (k'.ports p).thread ≡ (k.ports p).thread
  queued : (p : ℕ) → (k'.ports p).is_queued ≡ (k.ports p).is_queued

SamePorts-IsTidy : {k k' : Kernel} → SamePorts k k' → IsTidy k → IsTidy k'
SamePorts-IsTidy s v = record {
  pending = rw s.threads (λ p t. ground (arith, v.pending p t, s.home p, s.queued p));
  own = rw s.threads (λ p t d. ground (arith, v.own p t, s.home p));
  once = rw s.threads v.once;
}

module _ (L : LinkedList Garbage) (P : LinkedList ℕ) (M : IdMap) where
  sever-SamePorts :
      (k : Kernel) (p : ℕ)
      → IsAttached k (k.ports p).terminal
      → Returns (port_ends.sever L k p) (SamePorts k)
  unfolding port_ends.sever port_ends.get_terminal Terminals.retain Terminals.sever
      Terminals.release throw_away
  sever-SamePorts k p h = elim (Option-cases (k.ports p).terminal) [
    | inl e ↦ ground arith
    | inr (t, e) ↦ let h' = rw e at h in ground arith
  ]

  -- `DestroyPortSyscall` returns an empty result for a port of the thread that has no terminal, or one
  -- that is not severed and whose retain count does not overflow: the assertions on the way hold. No
  -- list of any thread has the port afterwards, so nothing reaches it when its object is gone, and the
  -- other ports keep their places.
  pub destroy_port-IsUnused :
      (k : Kernel) (port : ℕ)
      → IsTidy k
      → IsAttached k (k.ports port).terminal
      → Returns
          (destroy_port L P M k (some port))
          (λ r. IsTidy r.0 × IsUnused r.0 port × (r.1 ≡ empty))
  unfolding destroy_port
  destroy_port-IsUnused k port v h =
      Returns->>= (SamePorts k) (λ r. IsTidy r.0 × IsUnused r.0 port × (r.1 ≡ empty))
        (port_ends.sever L k port) _ (sever-SamePorts k port h)
        λ k' s.
          let (tidy, unused) = dealloc-IsUnused P M k' port (SamePorts-IsTidy s v) in
          (tidy, unused, refl)

  -- A system call on ports, and a message to one.
  pub data Call : Type 0 where
    creates : (th addr : ℕ) → Call
    destroys : (found : Option ℕ) → Call
    sends : (port : ℕ) → Message → Call

  abbrev pub perform : Kernel → Call → Option Kernel
  perform k (creates th addr) = some (create_port P M k th addr).0
  perform k (destroys found) = destroy_port L P M k found >>= λ r. some r.0
  perform k (sends port m) = send_to_this P k port m

  -- A new port stands at an address that no thread has; a port that is destroyed has no terminal or
  -- a live one; a thread polls only while its task is in the scheduler.
  abbrev pub Allowed : Kernel → Call → Type 0
  Allowed k (creates th addr) = IsUnused k addr
  Allowed k (destroys none) = Unit
  Allowed k (destroys (some port)) = IsAttached k (k.ports port).terminal
  Allowed k (sends port m) =
      (k.threads (k.ports port).thread).poll_state.polling ≡ true
      → get_task_scheduler k (k.ports port).thread ≡ some tt

  -- Creating ports, destroying them and sending messages to them, in any order, fails no assertion
  -- and keeps the ports tidy: each is in the list of ports of its own thread at most, once, and it is
  -- in the list of pending ports of its own thread at most, once, exactly while it is marked as queued.
  pub perform-IsTidy :
      (k : Kernel) (c : Call) → IsTidy k → Allowed k c → Returns (perform k c) IsTidy
  unfolding destroy_port
  perform-IsTidy k (creates th addr) v h = create_port-IsTidy P M k th addr v h
  perform-IsTidy k (destroys none) v h = v
  perform-IsTidy k (destroys (some port)) v h =
      Returns->>= (λ r. IsTidy r.0 × IsUnused r.0 port × (r.1 ≡ empty)) IsTidy
        (destroy_port L P M k (some port)) _ (destroy_port-IsUnused k port v h) (λ r w. w.0)
  perform-IsTidy k (sends port m) v h = send_to_this-IsTidy P k port m v h
