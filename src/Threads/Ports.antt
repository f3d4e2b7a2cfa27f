-- ===== src/Threads/Ports.antt =====
-- kernel/src/threads/thread-port.cpp, but for `SendToThis`, which is in Threads/Poll.
use alux.Prelude.{ℕ, Bool, true, false, if◌then◌else◌, none, some, LinkedList, IdMap}
use alux.Kernel.{Kernel, ThreadPort, put_port, put_thread, no_message}
use alux.Threads.Poll.{remove_pending}

-- `ThreadPort::ThreadPort`, whose identifier and last message are not set yet.
unfoldable pub new_port : ℕ → ThreadPort
new_port th = record {
  terminal = none;
  thread = th;
  identifier = 0;
  is_queued = false;
  last_message = no_message;
}

module _ (M : IdMap) where
  -- `ThreadPort::AddToThread`
  unfoldable pub add_to_thread : Kernel → ℕ → Kernel × Bool
  add_to_thread k port =
      let th = (k.ports port).thread in
      elim (M.add (k.threads th).port_list port) [
        | none ↦ (k, false)
        | some (ident, ports) ↦ (
          put_thread (put_port k port (record (k.ports port) { identifier = ident })) th
              (record (k.threads th) { port_list = ports }),
          true,
        )
      ]

module _ (M : IdMap) (P : LinkedList ℕ) where
  -- `ThreadPort::Dealloc`; a deleted port reads as a new one.
  unfoldable pub dealloc : Kernel → ℕ → Bool → Kernel
  unfolding remove_pending new_port
  dealloc k port remove =
      let th = (k.ports port).thread in
      let t = k.threads th in
      let k' =
        if remove
        then remove_pending P (put_thread k th (record t { port_list = M.remove t.port_list port }))
            port
        else k in
      put_port k' port (new_port th)
