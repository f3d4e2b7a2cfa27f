-- ===== src/Ipc/Ports.antt =====
-- kernel/src/ipc/port.cpp.
use alux.Prelude.{
  ℕ, Bool, true, false, if◌then◌else◌, Option, none, some, LinkedList, ensure, ◌>>=◌, ◌>>◌,
}
use alux.Kernel.{Kernel, Message, Garbage, put_port}
use alux.Ipc.Terminals
use alux.Ipc.Terminals.{is_some}
use alux.Ipc.Connections

-- `Port::SetTerminal`
unfoldable pub set_terminal : Kernel → ℕ → ℕ → Kernel × Bool
set_terminal k port t =
    if is_some (k.ports port).terminal
    then (put_port k port (record (k.ports port) { terminal = some t }), true)
    else (k, false)

get_terminal_at : Kernel → ℕ → Option ℕ → Bool → Option (Kernel × Option ℕ)
get_terminal_at k port none cut = some (k, none)
get_terminal_at k port (some t) cut = do
  let (k', res) = Terminals.retain k t
  ensure res
  some (if cut then put_port k' port (record (k'.ports port) { terminal = none }) else k', some t)

-- `Port::GetTerminal`, with its assertion.
unfoldable pub get_terminal : Kernel → ℕ → Bool → Option (Kernel × Option ℕ)
unfolding get_terminal_at
get_terminal k port cut = get_terminal_at k port (k.ports port).terminal cut

module _ (L : LinkedList Garbage) (P : LinkedList ℕ) where
  send_from : Kernel → ℕ → Option ℕ → Message → Option Kernel
  send_from k t none m = some k
  send_from k t (some c) m = Connections.send_to_remote L P k c t m

  send_by : Kernel → Option ℕ → Message → Option Kernel
  unfolding send_from
  send_by k none m = some k
  send_by k (some t) m = do
    k' ← send_from k t (k.terminals t).connection m
    some (Terminals.release L k' t)

  -- `Port::SendToRemote`
  unfoldable pub send_to_remote : Kernel → ℕ → Message → Option Kernel
  unfolding get_terminal send_by
  send_to_remote k port m = do (k', t) ← get_terminal k port false; send_by k' t m

module _ (L : LinkedList Garbage) where
  sever_at : Kernel → Option ℕ → Option Kernel
  sever_at k none = some k
  sever_at k (some t) = do k' ← Terminals.sever k t; some (Terminals.release L k' t)

  -- `Port::Sever`
  unfoldable pub sever : Kernel → ℕ → Option Kernel
  unfolding get_terminal sever_at
  sever k port = do (k', t) ← get_terminal k port true; sever_at k' t
