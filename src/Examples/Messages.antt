-- ===== src/Examples/Messages.antt =====
-- Messages: instances of the theorems, and tests.
use alux.Prelude.{◌+◌, ◌-◌, ◌≡◌, refl, inl, true, false, Returns, some, none, [], ◌∷◌, arith}
use alux.Kernel.{Kernel, Message, empty_kernel, put_terminal, put_connection}
use alux.Ipc.Terminals
use alux.Ipc.Terminals.{new_terminal, closed}
use alux.Ipc.Connections.{close, send_to_remote}
use alux.Ipc.Ports as ports
use alux.Ipc.Lifecycle.{IsExact, Reach-IsExact, sever-Returns}
use alux.Ipc.Lifecycle as lifecycle
use alux.Ipc.Attachment.{never_attached}
use alux.Ipc.Attachment as attachment
use alux.Ipc.Delivery.{Delivered, IsReady, send_to_remote-Delivered}
use alux.Ipc.Closing.{close_both}
use alux.Examples.Lists.{links, objects}

-- Terminals 1 and 2 with ports 11 and 12, joined by connection 3.
abbrev joined : Kernel
joined =
    put_connection
      (put_terminal
        (put_terminal empty_kernel 1
          (record { port = some 11; retain_count = 1; connection = some 3 }))
        2 (record { port = some 12; retain_count = 1; connection = some 3 }))
      3 (record { terminal1 = some 1; terminal2 = some 2; deleted = false; stale_unlocks = 0 })

abbrev hello : Message
hello = record { fields = 72 ∷ 105 ∷ []; kind = 1 }

joined-IsReady : IsReady joined
joined-IsReady th e = absurd (ground arith)

send_to_remote-Delivered_example :
    Returns (send_to_remote objects links joined 3 1 hello) (Delivered 12 hello joined)
send_to_remote-Delivered_example =
    send_to_remote-Delivered objects links joined 3 1 2 12 hello (inl (refl, refl))
      (λ e. absurd (omega arith)) refl (omega arith) joined-IsReady

close_both_example : Returns (close objects links joined 3 1 []) λ k'.
    ((k'.connections 3).deleted ≡ false)
    × ((k'.ports 12).last_message ≡ closed [])
    × ((k'.ports 12).is_queued ≡ true)
    × Returns
        (close objects links k' 3 2 [])
        λ k''. ((k''.connections 3).deleted ≡ true) × ((k''.connections 3).stale_unlocks ≡ 0 + 1)
close_both_example =
    close_both objects links joined 3 1 2 12 [] [] (inl (refl, refl)) (λ e. absurd (omega arith))
      refl refl (omega arith) joined-IsReady

abbrev one_terminal : Kernel
one_terminal =
    put_terminal empty_kernel 4 (record { port = some 11; retain_count = 1; connection = none })

one_terminal-Reach : lifecycle.Reach objects 4 one_terminal 1
unfolding lifecycle.tally new_terminal
one_terminal-Reach = lifecycle.Reach.start one_terminal 11 refl refl

Reach-IsExact_example : IsExact objects 4 (Terminals.release objects one_terminal 4) (1 - 1)
Reach-IsExact_example =
    Reach-IsExact objects 4 (lifecycle.Reach.released one_terminal-Reach (omega arith))

never_attached_example :
    (ports.set_terminal (ports.set_terminal joined 11 1).0 11 1
      ≡ ((ports.set_terminal joined 11 1).0, false))
    × (ports.send_to_remote objects links (ports.set_terminal joined 11 1).0 11 hello
        ≡ some (ports.set_terminal joined 11 1).0)
    × (ports.sever objects (ports.set_terminal joined 11 1).0 11
        ≡ some (ports.set_terminal joined 11 1).0)
never_attached_example =
    never_attached objects links (attachment.Reach.set (attachment.Reach.start joined refl) 1) 1
      hello
