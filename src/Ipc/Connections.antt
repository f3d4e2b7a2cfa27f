-- ===== src/Ipc/Connections.antt =====
-- kernel/src/ipc/connection.cpp, and `Hangup` and `Dealloc` of terminal.cpp.
use alux.Prelude.{
  ℕ, ◌+◌, Bool, true, false, ◌==◌, if◌then◌else◌, Option, none, some, List, LinkedList, ensure,
  ◌>>=◌, ◌>>◌,
}
use alux.Kernel.{Kernel, Message, Connection, Garbage, put_terminal, put_connection}
use alux.Ipc.Terminals.{retain, release, deliver, opened, closed, new_terminal}

-- `p == q` on pointers, where `q` is not NULL
abbrev pub is_at : Option ℕ → ℕ → Bool
is_at none b = false
is_at (some a) b = a == b

-- `Connection::Connection`
unfoldable pub new_connection : ℕ → ℕ → Connection
new_connection x y = record {
  terminal1 = some x;
  terminal2 = some y;
  deleted = false;
  stale_unlocks = 0;
}

abbrev pub attach : Kernel → ℕ → ℕ → Kernel
attach k i c = put_terminal k i (record (k.terminals i) { connection = some c })

-- `lock.Release()`, which may come after `delete this`.
abbrev unlock : Connection → Connection
unlock c = if c.deleted then record c { stale_unlocks = c.stale_unlocks + 1 } else c

module _ (P : LinkedList ℕ) where
  -- `Connection::Connect`, given what `new` returned.
  unfoldable pub connect : Kernel → Option ℕ → ℕ → ℕ → List ℕ → Option Kernel
  unfolding new_connection deliver
  connect k none t1 t2 stack = none
  connect k (some c) t1 t2 stack = do
    let k' = attach (attach (put_connection k c (new_connection t1 t2)) t2 c) t1 c
    k'' ← deliver P k' t1 (opened stack)
    deliver P k'' t2 (opened stack)

module _ (L : LinkedList Garbage) (P : LinkedList ℕ) where
  -- The end of `SendToRemote` and `Close`: the message goes out between a retain and a release.
  unfoldable pub send_retained : Kernel → ℕ → Message → Option Kernel
  send_retained k other m =
      let (k', done) = retain k other in
      if done then (do k'' ← deliver P k' other m; some (release L k'' other)) else some k

  unfoldable pub send_other : Kernel → Option ℕ → Message → Option Kernel
  unfolding send_retained
  send_other k none m = some k
  send_other k (some other) m = send_retained k other m

  -- `Connection::SendToRemote`
  unfoldable pub send_to_remote : Kernel → ℕ → ℕ → Message → Option Kernel
  unfolding send_other
  send_to_remote k c sender m =
      let conn = k.connections c in
      if is_at conn.terminal1 sender
      then send_other k conn.terminal2 m
      else (ensure (is_at conn.terminal2 sender) >> send_other k conn.terminal1 m)

  -- The second half of `Close`: the last terminal deletes the connection, and the lock's scope ends
  -- after that; any other tells the remote end.
  unfoldable pub close_other : Kernel → ℕ → Connection → Option ℕ → List ℕ → Option Kernel
  unfolding send_retained
  close_other k c conn none stack =
      some (put_connection k c (unlock (record conn { deleted = true })))
  close_other k c conn (some other) stack =
      send_retained (put_connection k c (unlock conn)) other (closed stack)

  -- `Connection::Close`
  unfoldable pub close : Kernel → ℕ → ℕ → List ℕ → Option Kernel
  unfolding close_other
  close k c sender stack =
      let conn = k.connections c in
      if is_at conn.terminal1 sender
      then close_other k c (record conn { terminal1 = none }) conn.terminal2 stack
      else (ensure (is_at conn.terminal2 sender)
          >> close_other k c (record conn { terminal2 = none }) conn.terminal1 stack)

  hangup_from : Kernel → ℕ → Option ℕ → List ℕ → Option Kernel
  hangup_from k i none stack = some k
  hangup_from k i (some c) stack = close k c i stack

  -- `Terminal::Hangup`
  unfoldable pub hangup : Kernel → ℕ → List ℕ → Option Kernel
  unfolding hangup_from
  hangup k i stack = hangup_from k i (k.terminals i).connection stack

  -- `Terminal::Dealloc`; a deleted terminal reads as one with no port and no connection.
  unfoldable pub dealloc : Kernel → ℕ → List ℕ → Option Kernel
  unfolding hangup new_terminal
  dealloc k i stack = do k' ← hangup k i stack; some (put_terminal k' i (new_terminal none))
