-- ===== src/Threads/Poll.antt =====
-- kernel/src/threads/poll-state.cpp and the sending side of thread-port.cpp.
use alux.Prelude.{ℕ, true, false, if◌then◌else◌, Option, some, LinkedList, ◌>>◌}
use alux.Kernel.{Kernel, Message, PollState, put_port, put_thread}
use alux.Scheduler.Collector.{clear_timeout}
use alux.Threads.Access.{get_task_scheduler}

-- The list of ports of a thread that have something to say.
abbrev pub put_poll : Kernel → ℕ → PollState → Kernel
put_poll k th s = put_thread k th (record (k.threads th) { poll_state = s })

module _ (P : LinkedList ℕ) where
  -- `PollState::AddToPending` of the port's thread
  unfoldable pub add_to_pending : Kernel → ℕ → Option Kernel
  unfolding get_task_scheduler
  add_to_pending k port =
      let th = (k.ports port).thread in
      let s = (k.threads th).poll_state in
      let k' =
        put_poll (put_port k port (record (k.ports port) { is_queued = true })) th
          (record s { pending_ports = P.add s.pending_ports port }) in
      if (k.ports port).is_queued
      then some k
      else if s.polling
      then (get_task_scheduler k th >> some (clear_timeout k' th))
      else some k'

  -- `PollState::RemovePending` of the port's thread
  unfoldable pub remove_pending : Kernel → ℕ → Kernel
  remove_pending k port =
      let th = (k.ports port).thread in
      let s = (k.threads th).poll_state in
      if (k.ports port).is_queued
      then put_poll (put_port k port (record (k.ports port) { is_queued = false })) th
          (record s { pending_ports = P.remove s.pending_ports port })
      else k

  -- `ThreadPort::SendToThis`
  unfoldable pub send_to_this : Kernel → ℕ → Message → Option Kernel
  unfolding add_to_pending
  send_to_this k port msg =
      add_to_pending (put_port k port (record (k.ports port) { last_message = msg })) port
