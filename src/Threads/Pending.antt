-- ===== src/Threads/Pending.antt =====
-- The ports of threads: each in the list of its thread, and at most once in the thread's list of
-- ports that have something to say.
use alux.Prelude.{
  ℕ, ◌+◌, ◌<◌, ◌≤◌, ◌≡◌, ◌≢◌, true, false, ◌&&◌, ◌==◌, if◌then◌else◌, some, List, Bool-cases, inl,
  inr, subst, LinkedList, Returns, occurrences, occurrences-append, occurrences-unlink, arith,
}
use alux.Kernel.{Kernel, Message, put_port}
use alux.Scheduler.Collector.{clear_timeout}
use alux.Threads.Access.{get_task, get_scheduler, get_task_scheduler}
use alux.Threads.Poll.{put_poll, add_to_pending, remove_pending, send_to_this}

-- A port is pending with its own thread, exactly when it is marked; it is in the list of no other
-- thread, and in none twice.
pub record IsTidy (k : Kernel) : Type 0 where
  pub pending :
      (p th : ℕ)
      → occurrences p (k.threads th).poll_state.pending_ports
        ≡ (if (k.ports p).is_queued && ((k.ports p).thread == th) then 1 else 0)
  pub own : (p th : ℕ) → (k.ports p).thread ≢ th → occurrences p (k.threads th).port_list ≡ 0
  pub once : (p th : ℕ) → occurrences p (k.threads th).port_list ≤ 1

-- No thread has a port at the address.
pub record IsUnused (k : Kernel) (addr : ℕ) : Type 0 where
  pub unlisted : (th : ℕ) → occurrences addr (k.threads th).port_list ≡ 0
  pub unheard : (th : ℕ) → occurrences addr (k.threads th).poll_state.pending_ports ≡ 0

module _ (P : LinkedList ℕ) where
  occurrences-add :
      (xs : List ℕ) (x y : ℕ)
      → occurrences y (P.add xs x) ≡ occurrences y xs + (if x == y then 1 else 0)
  occurrences-add xs x y = rw (P.add-back xs x) (occurrences-append x y xs)

  -- The port in the list of its thread, and out of it again.
  abbrev noted : Kernel → ℕ → Kernel
  noted k port =
      let th = (k.ports port).thread in
      let s = (k.threads th).poll_state in
      put_poll (put_port k port (record (k.ports port) { is_queued = true })) th
        (record s { pending_ports = P.add s.pending_ports port })

  noted-IsTidy :
      (k : Kernel) (port : ℕ) → IsTidy k → (k.ports port).is_queued ≡ false → IsTidy (noted k port)
  noted-IsTidy k port v e =
      let ps = (k.threads (k.ports port).thread).poll_state.pending_ports in
      record {
        pending = λ p th. ground (arith, v.pending p th, occurrences-add ps port p);
        own = λ p th d. ground (arith, v.own p th);
        once = λ p th. ground (arith, v.once p th);
      }

  pub remove_pending-IsTidy : (k : Kernel) (port : ℕ) → IsTidy k → IsTidy (remove_pending P k port)
  unfolding remove_pending
  remove_pending-IsTidy k port v = elim (Bool-cases (k.ports port).is_queued) [
    | inr e ↦ rw e v
    | inl e ↦
        let home = (k.ports port).thread in
        let ps = (k.threads home).poll_state.pending_ports in
        let here : 0 < occurrences port ps = ground (arith, v.pending port home) in
        rw e (record {
          pending = λ p th. ground (arith, v.pending p th, occurrences-unlink P port p ps here);
          own = λ p th d. ground (arith, v.own p th);
          once = λ p th. ground (arith, v.once p th);
        })
  ]

  pub send_to_this-IsTidy :
      (k : Kernel) (port : ℕ) (m : Message)
      → IsTidy k
      → ((k.threads (k.ports port).thread).poll_state.polling ≡ true
          → get_task_scheduler k (k.ports port).thread ≡ some tt)
      → Returns (send_to_this P k port m) IsTidy
  unfolding send_to_this add_to_pending get_task_scheduler get_task get_scheduler
  send_to_this-IsTidy k port m v h =
      let k1 = put_port k port (record (k.ports port) { last_message = m }) in
      let v1 : IsTidy k1 = record {
        pending = λ p th. ground (arith, v.pending p th);
        own = λ p th d. ground (arith, v.own p th);
        once = v.once;
      } in
      elim (Bool-cases (k.ports port).is_queued) [
        | inl e ↦ subst (λ r. Returns r IsTidy) {x = some k1} (ground arith) v1
        | inr e ↦
            let w = noted-IsTidy k1 port v1 (ground arith) in
            elim (Bool-cases (k.threads (k.ports port).thread).poll_state.polling) [
              | inl b ↦
                  subst (λ r. Returns r IsTidy)
                    {x = some (clear_timeout (noted k1 port) (k.ports port).thread)} (ground arith)
                    (record { pending = w.pending; own = w.own; once = w.once })
              | inr b ↦ subst (λ r. Returns r IsTidy) {x = some (noted k1 port)} (ground arith) w
            ]
      ]

  -- What `RemovePending` leaves.
  pub remove_pending_lem :
      (k : Kernel) (port : ℕ)
      → (((remove_pending P k port).ports port).is_queued ≡ false)
        × (((remove_pending P k port).ports port).thread ≡ (k.ports port).thread)
  unfolding remove_pending
  remove_pending_lem k port = ground arith

  pub port_list-remove_pending :
      (k : Kernel) (port th : ℕ)
      → ((remove_pending P k port).threads th).port_list ≡ (k.threads th).port_list
  unfolding remove_pending
  port_list-remove_pending k port th = ground arith
