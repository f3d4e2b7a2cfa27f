-- ===== src/Ipc/Attachment.antt =====
-- Attaching a terminal to a port. The header promises that `SetTerminal` sets the terminal if the
-- port does not already have one; its test is the other way round.
use alux.Prelude.{ℕ, ◌≡◌, Bool, false, Option, none, some, LinkedList, arith}
use alux.Kernel.{Kernel, Message, Garbage}
use alux.Ipc.Ports.{set_terminal, get_terminal, send_to_remote, sever}

-- What the port's terminal goes through: only `SetTerminal` and `GetTerminal` write it.
pub data Reach (port : ℕ) : Kernel → Type 0 where
  start : (k : Kernel) → (k.ports port).terminal ≡ none → Reach port k
  set : {k : Kernel} → Reach port k → (t : ℕ) → Reach port (set_terminal k port t).0
  got :
      {k k' : Kernel} {t : Option ℕ}
      → Reach port k
      → (cut : Bool) → get_terminal k port cut ≡ some (k', t)
      → Reach port k'

terminal_stays_none : {port : ℕ} {k : Kernel} → Reach port k → (k.ports port).terminal ≡ none
unfolding set_terminal get_terminal
terminal_stays_none (start k e) = e
terminal_stays_none (set r t) = let e = terminal_stays_none r in ground arith
terminal_stays_none (got r cut h) = let e = terminal_stays_none r in ground arith

-- A port that starts with no terminal never gets one: in every reachable state `SetTerminal` fails
-- and changes nothing, and `SendToRemote` and `Sever` return without having done anything.
pub never_attached :
    (L : LinkedList Garbage) (P : LinkedList ℕ) {port : ℕ} {k : Kernel}
    → Reach port k
    → (t : ℕ) (m : Message)
    → (set_terminal k port t ≡ (k, false))
      × (send_to_remote L P k port m ≡ some k)
      × (sever L k port ≡ some k)
unfolding set_terminal get_terminal send_to_remote sever
never_attached L P {port} {k} r t m = let e = terminal_stays_none r in ground arith
