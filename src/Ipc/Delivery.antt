-- ===== src/Ipc/Delivery.antt =====
-- A message on its way: from `Connection::SendToRemote` to the pending ports of the remote thread.
use alux.Prelude.{
  List, [], ◌∷◌, ◌++◌, not, ◌&&◌, ◌==◌, if◌then◌else◌, ℕ, ◌+◌, ◌^◌, ◌<◌, ◌≡◌, ◌≢◌, ◌⊎◌, subst, true,
  some, LinkedList, Returns, arith, Returns->>=,
}
use alux.Kernel.{Kernel, Message, Garbage}
use alux.Threads.Access.{get_task_scheduler}
use alux.Threads.Poll.{send_to_this}
use alux.Ipc.Terminals.{retain, release, deliver}
use alux.Ipc.Connections.{send_retained, send_to_remote}

-- The assertions on the way to `ClearTimeout` hold for every thread that polls.
abbrev pub IsReady : Kernel → Type 0
IsReady k = (th : ℕ) → (k.threads th).poll_state.polling ≡ true → get_task_scheduler k th ≡ some tt

-- The ports of a thread that have something to say, after a message to port `q`: the port is put at the
-- back, unless it stands there already.
abbrev pub pending_after : Kernel → (q th : ℕ) → List ℕ
pending_after k q th =
    let old = (k.threads th).poll_state.pending_ports in
    if ((k.ports q).thread == th) && not (k.ports q).is_queued then old ++ q ∷ [] else old

-- The deadline of a thread after a message to port `q`: it is cleared if the port belongs to the thread,
-- has just been put into the list, and the thread polls.
abbrev pub deadline_after : Kernel → (q th : ℕ) → ℕ
deadline_after k q th =
    if ((k.ports q).thread == th)
      && (not (k.ports q).is_queued && (k.threads th).poll_state.polling)
    then 0
    else (k.objs th).deadline

-- What a delivery to port `q` has done.
pub record Delivered (q : ℕ) (m : Message) (k k' : Kernel) : Type 0 where
  pub message : (k'.ports q).last_message ≡ m
  pub queued : (k'.ports q).is_queued ≡ true
  pub pending : (th : ℕ) → (k'.threads th).poll_state.pending_ports ≡ pending_after k q th
  pub deadline : (th : ℕ) → (k'.objs th).deadline ≡ deadline_after k q th
  pub others : (p : ℕ) → p ≢ q → k'.ports p ≡ k.ports p
  pub terminals : (j : ℕ) → k'.terminals j ≡ k.terminals j
  pub connections : k'.connections ≡ k.connections
  pub garbage : k'.garbage ≡ k.garbage

module _ (P : LinkedList ℕ) where
  send_to_this-Delivered :
      (k : Kernel) (q : ℕ) (m : Message)
      → IsReady k
      → Returns (send_to_this P k q m) (Delivered q m k)
  unfolding send_to_this
  send_to_this-Delivered k q m h =
      let back = P.add-back (k.threads (k.ports q).thread).poll_state.pending_ports q in
      let ready = h (k.ports q).thread in ground (arith, ready, back)

  deliver-Delivered :
      (k : Kernel) (i q : ℕ) (m : Message)
      → (k.terminals i).port ≡ some q
      → IsReady k
      → Returns (deliver P k i m) (Delivered q m k)
  unfolding deliver
  deliver-Delivered k i q m e h =
      subst (λ r. Returns r (Delivered q m k)) (ground arith) (send_to_this-Delivered k q m h)

module _ (L : LinkedList Garbage) (P : LinkedList ℕ) where
  release-Delivered :
      (k k' : Kernel) (i q : ℕ) (m : Message)
      → (k.terminals i).port ≡ some q
      → (k.terminals i).retain_count + 1 < 2 ^ 32
      → Delivered q m (retain k i).0 k'
      → Delivered q m k (release L k' i)
  unfolding retain release
  release-Delivered k k' i q m e small d = record {
    message = ground (arith, d.message, d.terminals i);
    queued = ground (arith, d.queued, d.terminals i);
    pending = λ th. ground (arith, d.pending th, d.terminals i);
    deadline = λ th. ground (arith, d.deadline th, d.terminals i);
    others = λ p n. ground (arith, d.others p n, d.terminals i);
    terminals = λ j. ground (arith, d.terminals i, d.terminals j);
    connections = ground (arith, d.connections, d.terminals i);
    garbage = ground (arith, d.garbage, d.terminals i);
  }

  retain-IsReady : (k : Kernel) (i : ℕ) → IsReady k → IsReady (retain k i).0
  unfolding retain get_task_scheduler
  retain-IsReady k i h th e = ground (arith, h th)

  pub send_retained-Delivered :
      (k : Kernel) (i q : ℕ) (m : Message)
      → (k.terminals i).port ≡ some q
      → (k.terminals i).retain_count + 1 < 2 ^ 32
      → IsReady k
      → Returns (send_retained L P k i m) (Delivered q m k)
  unfolding send_retained retain get_task_scheduler
  send_retained-Delivered k i q m e small h =
      subst (λ r. Returns r (Delivered q m k)) (ground arith)
        (Returns->>= (Delivered q m (retain k i).0) (Delivered q m k) (deliver P (retain k i).0 i m)
          (λ k'. some (release L k' i))
          (deliver-Delivered P (retain k i).0 i q m (ground arith) (retain-IsReady k i h))
          (λ k' d. release-Delivered k k' i q m e small d))

  -- `SendToRemote` from either end of a connection returns. The port of the terminal at the other end
  -- has the message as its last one, in place of what it had, and stands in the list of pending ports
  -- of its thread: at the back if it was not queued, and else where it was. The deadline of that thread
  -- is cleared if it polls and the port is new in its list. All other lists, deadlines and ports, every
  -- terminal, its retain count included, every connection and the garbage are as before. The remote
  -- terminal is not severed, its retain count does not overflow, and the threads that poll are
  -- scheduled.
  pub send_to_remote-Delivered :
      (k : Kernel) (c sender other q : ℕ) (m : Message)
      → (((k.connections c).terminal1 ≡ some sender) × ((k.connections c).terminal2 ≡ some other))
        ⊎ (((k.connections c).terminal1 ≡ some other) × ((k.connections c).terminal2 ≡ some sender))
      → sender ≢ other
      → (k.terminals other).port ≡ some q
      → (k.terminals other).retain_count + 1 < 2 ^ 32
      → IsReady k
      → Returns (send_to_remote L P k c sender m) (Delivered q m k)
  unfolding send_to_remote
  send_to_remote-Delivered k c sender other q m ends distinct e small h =
      subst (λ r. Returns r (Delivered q m k)) (ground arith)
        (send_retained-Delivered k other q m e small h)
