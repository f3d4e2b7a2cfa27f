-- ===== src/Scheduler/Attention.antt =====
-- kernel/src/scheduler/garbage-collector.cpp: the list of the collector and the deadline of its
-- thread, while objects are thrown away and deallocated.
use alux.Prelude.{
  ℕ, ◌+◌, ◌≡◌, refl, inl, inr, subst, Option-cases, Option, none, some, List, [], ◌∷◌, LinkedList,
  IdMap, >>=-eq-some, arith, Bool-cases, true, false,
}
use alux.Kernel.{
  put_stale, Kernel, Message, Garbage, terminal_garbage, task_garbage, Connection, put_thread,
  put_terminal, empty_thread, put_connection,
}
use alux.Ipc.Connections
use alux.Ipc.Ports as port_ends
use alux.Ipc.Terminals
use alux.Scheduler.Collector.{throw_away}
use alux.Scheduler.Notice.{Keeps, Keeps-same, Keeps-trans, Grows-same, at_most_one}
use alux.Scheduler.Queue
use alux.Tasks.Stored
use alux.Threads.Access.{get_task, get_scheduler, get_task_scheduler}
use alux.Threads.Life.{dealloc_ports, leave_scheduler, leave_task}
use alux.Threads.Life
use alux.Threads.Poll.{send_to_this}
use alux.Threads.Ports

module _ (L : LinkedList Garbage) (P : LinkedList ℕ) where
  pub throw_away-Keeps : (k : Kernel) (obj : Garbage) → Keeps k (throw_away L k obj)
  unfolding throw_away
  throw_away-Keeps k obj = record {
    collector = refl;
    due = λ h. ground arith;
    grows = at_most_one L (obj) (ground arith);
    noticed = inr (ground arith);
  }

  send_to_this-Keeps :
      (k : Kernel) (port : ℕ) (m : Message) {r : Kernel}
      → send_to_this P k port m ≡ some r
      → Keeps k r
  unfolding send_to_this get_task_scheduler get_task get_scheduler
  send_to_this-Keeps k port m h = record {
    collector = ground arith;
    due = λ e. ground arith;
    grows = Grows-same (ground arith);
    noticed = inl (ground arith);
  }

  release-Keeps : (k : Kernel) (i : ℕ) → Keeps k (Terminals.release L k i)
  unfolding Terminals.release throw_away
  release-Keeps k i = record {
    collector = ground arith;
    due = λ h. ground arith;
    grows = at_most_one L (terminal_garbage i) (ground arith);
    noticed = ground arith;
  }

  deliver-Keeps :
      (k : Kernel) (i : ℕ) (m : Message) {r : Kernel}
      → Terminals.deliver P k i m ≡ some r
      → Keeps k r
  unfolding Terminals.deliver
  deliver-Keeps k i m {r} h = elim (Option-cases (k.terminals i).port) [
    | inl e ↦ subst (Keeps k) (ground arith) (Keeps-same k)
    | inr (p, e) ↦ send_to_this-Keeps k p m {r = r} (ground arith)
  ]

  retain-Keeps : (k : Kernel) (i : ℕ) → Keeps k (Terminals.retain k i).0
  unfolding Terminals.retain
  retain-Keeps k i = record {
    collector = ground arith;
    due = λ h. ground arith;
    grows = Grows-same (ground arith);
    noticed = ground arith;
  }

  send_retained-Keeps :
      (k : Kernel) (other : ℕ) (m : Message) {r : Kernel}
      → Connections.send_retained L P k other m ≡ some r
      → Keeps k r
  unfolding Connections.send_retained
  send_retained-Keeps k other m {r} h = elim (Bool-cases (Terminals.retain k other).1) [
    | inr e ↦ subst (Keeps k) (ground arith) (Keeps-same k)
    | inl e ↦
        let (k', q, f) =
          >>=-eq-some (Terminals.deliver P (Terminals.retain k other).0 other m)
            (λ k'. some (Terminals.release L k' other)) {b = r} (ground arith) in
        Keeps-trans (retain-Keeps k other) (
          Keeps-trans (deliver-Keeps (Terminals.retain k other).0 other m q)
            (subst (Keeps k') (ground arith) (release-Keeps k' other)))
  ]

  put_connection-Keeps :
      (k : Kernel) (c : ℕ) (conn : Connection) → Keeps k (put_connection k c conn)
  put_connection-Keeps k c conn = record {
    collector = refl;
    due = λ h. h;
    grows = Grows-same refl;
    noticed = inl refl;
  }

  close_other-Keeps :
      (k : Kernel) (c : ℕ) (conn : Connection) (o : Option ℕ) (stack : List ℕ) {r : Kernel}
      → Connections.close_other L P k c conn o stack ≡ some r
      → Keeps k r
  unfolding Connections.close_other
  close_other-Keeps k c conn none stack {r} h = subst (Keeps k) (ground arith) (
      put_connection-Keeps k c
        (record conn { deleted = true; stale_unlocks = conn.stale_unlocks + 1 }))
  close_other-Keeps k c conn (some other) stack {r} h =
      Keeps-trans (put_connection-Keeps k c _) (send_retained-Keeps _ other _ h)

  close-Keeps :
      (k : Kernel) (c sender : ℕ) (stack : List ℕ) {r : Kernel}
      → Connections.close L P k c sender stack ≡ some r
      → Keeps k r
  unfolding Connections.close
  close-Keeps k c sender stack {r} h =
      let conn = k.connections c in
      elim (Bool-cases (Connections.is_at conn.terminal1 sender)) [
        | inl e ↦
            close_other-Keeps k c (record conn { terminal1 = none }) conn.terminal2 stack {r = r}
              (ground arith)
        | inr e ↦
            close_other-Keeps k c (record conn { terminal2 = none }) conn.terminal1 stack {r = r}
              (ground arith)
      ]

  hangup-Keeps :
      (k : Kernel) (i : ℕ) (stack : List ℕ) {r : Kernel}
      → Connections.hangup L P k i stack ≡ some r
      → Keeps k r
  unfolding Connections.hangup
  hangup-Keeps k i stack {r} h = elim (Option-cases (k.terminals i).connection) [
    | inl e ↦ subst (Keeps k) (ground arith) (Keeps-same k)
    | inr (c, e) ↦ close-Keeps k c i stack {r = r} (ground arith)
  ]

  pub terminal_dealloc-Keeps :
      (k : Kernel) (i : ℕ) (stack : List ℕ) {r : Kernel}
      → Connections.dealloc L P k i stack ≡ some r
      → Keeps k r
  unfolding Connections.dealloc
  terminal_dealloc-Keeps k i stack {r} h =
      let (k', e, f) =
        >>=-eq-some (Connections.hangup L P k i stack)
          (λ k'. some (put_terminal k' i (Terminals.new_terminal none))) {b = r} h in
      Keeps-trans (hangup-Keeps k i stack e) (
        subst (Keeps k') {x = put_terminal k' i (Terminals.new_terminal none)} (ground arith)
          (record { collector = refl; due = λ h. h; grows = Grows-same refl; noticed = inl refl }))

  terminal_of : Option ℕ → Garbage
  terminal_of none = terminal_garbage 0
  terminal_of (some t) = terminal_garbage t

  sever-Keeps : (k : Kernel) (p : ℕ) {r : Kernel} → port_ends.sever L k p ≡ some r → Keeps k r
  unfolding terminal_of port_ends.sever port_ends.get_terminal Terminals.retain Terminals.sever
      Terminals.release throw_away
  sever-Keeps k p h = record {
    collector = ground arith;
    due = λ e. ground arith;
    grows = at_most_one L (terminal_of (k.ports p).terminal) (ground arith);
    noticed = ground arith;
  }

module _ (L : LinkedList Garbage) (P : LinkedList ℕ) (M : IdMap) where
  port_dealloc-Keeps : (k : Kernel) (p : ℕ) → Keeps k (Ports.dealloc M P k p false)
  unfolding Ports.dealloc
  port_dealloc-Keeps k p = record {
    collector = refl;
    due = λ h. h;
    grows = Grows-same refl;
    noticed = inl refl;
  }

  pub stale-Keeps : (k : Kernel) (p : ℕ) → Keeps k (put_stale k p)
  stale-Keeps k p = record {
    collector = refl;
    due = λ h. h;
    grows = Grows-same refl;
    noticed = inl refl;
  }

  dealloc_ports-Keeps :
      (k : Kernel) (ps : List ℕ) {r : Kernel} → dealloc_ports L P M k ps ≡ some r → Keeps k r
  unfolding dealloc_ports
  dealloc_ports-Keeps k [] h = subst (Keeps k) (ground arith) (Keeps-same k)
  dealloc_ports-Keeps k (p ∷ ps) h =
      let (k', e, f) = >>=-eq-some (port_ends.sever L k p) _ h in
      Keeps-trans (sever-Keeps L P k p e) (
        Keeps-trans (port_dealloc-Keeps k' p) (
          Keeps-trans (stale-Keeps (Ports.dealloc M P k' p false) p)
            (dealloc_ports-Keeps (put_stale (Ports.dealloc M P k' p false) p) ps f)))

  leave_scheduler-Keeps :
      (k : Kernel) (th : ℕ) {r : Kernel} → leave_scheduler L P M k th ≡ some r → Keeps k r
  unfolding leave_scheduler get_task_scheduler get_task get_scheduler Queue.remove
  leave_scheduler-Keeps k th h = record {
    collector = ground arith;
    due = λ e. ground arith;
    grows = Grows-same (ground arith);
    noticed = ground arith;
  }

  leave_task-Keeps : (k : Kernel) (th : ℕ) {r : Kernel} → leave_task L P M k th ≡ some r → Keeps k r
  unfolding leave_task get_task get_scheduler Stored.release throw_away
  leave_task-Keeps k th h = record {
    collector = ground arith;
    due = λ e. ground arith;
    grows = at_most_one L (task_garbage (k.threads th).task) (ground arith);
    noticed = ground arith;
  }

  pub thread_dealloc-Keeps :
      (k : Kernel) (th : ℕ) {r : Kernel} → Life.dealloc L P M k th ≡ some r → Keeps k r
  unfolding Life.dealloc
  thread_dealloc-Keeps k th {r} h =
      let (k1, e1, h1) = >>=-eq-some (dealloc_ports L P M k (k.threads th).port_list) _ h in
      let (k2, e2, h2) = >>=-eq-some (leave_scheduler L P M k1 th) _ h1 in
      let (k3, e3, h3) = >>=-eq-some (leave_task L P M k2 th) _ h2 in
      Keeps-trans (dealloc_ports-Keeps k (k.threads th).port_list e1) (
        Keeps-trans (leave_scheduler-Keeps k1 th e2) (
          Keeps-trans (leave_task-Keeps k2 th e3) (
            subst (Keeps k3) {x = put_thread k3 th empty_thread} (ground arith) (record {
              collector = refl;
              due = λ h. h;
              grows = Grows-same refl;
              noticed = inl refl;
            }))))
