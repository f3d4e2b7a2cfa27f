-- ===== src/Ipc/Closing.antt =====
-- Closing a connection from both ends.
use alux.Prelude.{
  ℕ, ◌+◌, ◌^◌, ◌<◌, ◌≡◌, ◌≢◌, ◌⊎◌, refl, subst, inl, inr, true, false, none, some, List, LinkedList,
  Returns, Returns-mono, arith,
}
use alux.Kernel.{Kernel, Garbage, Connection, put_connection}
use alux.Threads.Access.{get_task_scheduler}
use alux.Ipc.Terminals.{closed}
use alux.Ipc.Connections.{close, send_retained}
use alux.Ipc.Delivery.{Delivered, IsReady, send_retained-Delivered}

-- The two ends of a connection, in either order.
abbrev pub Joins : Connection → ℕ → ℕ → Type 0
Joins c a b =
    ((c.terminal1 ≡ some a) × (c.terminal2 ≡ some b))
    ⊎ ((c.terminal1 ≡ some b) × (c.terminal2 ≡ some a))

-- One end is left.
abbrev pub Left : Connection → ℕ → Type 0
Left c b =
    ((c.terminal1 ≡ none) × (c.terminal2 ≡ some b))
    ⊎ ((c.terminal1 ≡ some b) × (c.terminal2 ≡ none))

module _ (L : LinkedList Garbage) (P : LinkedList ℕ) where
  -- What the first `Close` leaves behind: the other end stays, with the news queued on its port.
  record FirstClosed (c b q : ℕ) (stack : List ℕ) (k k' : Kernel) : Type 0 where
    left : Left (k'.connections c) b
    kept : (k'.connections c).deleted ≡ false
    no_stale : (k'.connections c).stale_unlocks ≡ (k.connections c).stale_unlocks
    message : (k'.ports q).last_message ≡ closed stack
    queued : (k'.ports q).is_queued ≡ true

  half_closed :
      (k : Kernel) (c b q : ℕ) (stack : List ℕ) (half : Connection)
      → Left half b
      → half.deleted ≡ false
      → half.stale_unlocks ≡ (k.connections c).stale_unlocks
      → (k.terminals b).port ≡ some q
      → (k.terminals b).retain_count + 1 < 2 ^ 32
      → IsReady k
      → Returns
          (send_retained L P (put_connection k c half) b (closed stack))
          (FirstClosed c b q stack k)
  unfolding get_task_scheduler
  half_closed k c b q stack half l d s e small h =
      Returns-mono (Delivered q (closed stack) (put_connection k c half))
        (FirstClosed c b q stack k) _
        (send_retained-Delivered L P (put_connection k c half) b q (closed stack) e small h)
        λ k' g. record {
          left = ground (arith, g.connections);
          kept = ground (arith, g.connections);
          no_stale = ground (arith, g.connections);
          message = g.message;
          queued = g.queued;
        }

  close_first :
      (k : Kernel) (c a b q : ℕ) (stack : List ℕ)
      → Joins (k.connections c) a b
      → a ≢ b
      → (k.connections c).deleted ≡ false
      → (k.terminals b).port ≡ some q
      → (k.terminals b).retain_count + 1 < 2 ^ 32
      → IsReady k
      → Returns (close L P k c a stack) (FirstClosed c b q stack k)
  unfolding close
  close_first k c a b q stack (inl j) ne d e small h =
      subst (λ r. Returns r (FirstClosed c b q stack k)) (ground arith)
        (half_closed k c b q stack (record (k.connections c) { terminal1 = none }) (ground arith) d
          refl e small h)
  close_first k c a b q stack (inr j) ne d e small h =
      subst (λ r. Returns r (FirstClosed c b q stack k)) (ground arith)
        (half_closed k c b q stack (record (k.connections c) { terminal2 = none }) (ground arith) d
          refl e small h)

  close_last :
      (k : Kernel) (c b : ℕ) (stack : List ℕ)
      → Left (k.connections c) b
      → Returns (close L P k c b stack) λ k'.
        ((k'.connections c).deleted ≡ true)
        × ((k'.connections c).stale_unlocks ≡ (k.connections c).stale_unlocks + 1)
  unfolding close
  close_last k c b stack l = ground arith

  -- When both ends of a live connection close it, in either order, the first call queues the closing
  -- message on the port of the end that is left and keeps the connection, and the second deletes it
  -- and then releases the lock of the deleted object. The terminal that closes last has a port when
  -- the first one closes, its retain count does not overflow, and the threads that poll are scheduled.
  pub close_both :
      (k : Kernel) (c a b q : ℕ) (stack stack' : List ℕ)
      → Joins (k.connections c) a b
      → a ≢ b
      → (k.connections c).deleted ≡ false
      → (k.terminals b).port ≡ some q
      → (k.terminals b).retain_count + 1 < 2 ^ 32
      → IsReady k
      → Returns (close L P k c a stack) λ k'.
        ((k'.connections c).deleted ≡ false)
        × ((k'.ports q).last_message ≡ closed stack)
        × ((k'.ports q).is_queued ≡ true)
        × Returns (close L P k' c b stack') λ k''.
          ((k''.connections c).deleted ≡ true)
          × ((k''.connections c).stale_unlocks ≡ (k.connections c).stale_unlocks + 1)
  close_both k c a b q stack stack' j ne d e small h =
      Returns-mono (FirstClosed c b q stack k) _ _ (close_first k c a b q stack j ne d e small h)
        λ k' f. (
          f.kept,
          f.message,
          f.queued,
          subst
              (λ n. Returns (close L P k' c b stack') (λ k''.
                ((k''.connections c).deleted ≡ true) × ((k''.connections c).stale_unlocks ≡ n + 1)))
              f.no_stale (close_last k' c b stack' f.left),
        )
