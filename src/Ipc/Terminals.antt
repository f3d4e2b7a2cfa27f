-- ===== src/Ipc/Terminals.antt =====
-- kernel/src/ipc/terminal.cpp, but for `Hangup` and `Dealloc`, and the messages of message.hpp.
use alux.Prelude.{
  ℕ, ◌^◌, Bool, true, false, not, ◌&&◌, ◌==◌, ltb, if◌then◌else◌, Option, none, some, List, inc32,
  dec32, LinkedList, ensure, ◌>>◌,
}
use alux.Kernel.{Kernel, Message, Terminal, Garbage, terminal_garbage, put_terminal}
use alux.Scheduler.Collector.{throw_away}
use alux.Threads.Poll.{send_to_this}

abbrev pub type_opened : ℕ
type_opened = 0

abbrev pub type_data : ℕ
type_data = 1

abbrev pub type_closed : ℕ
type_closed = 2

-- `Message::Opened` and `Message::Closed`, whose `fields` hold what the stack held.
abbrev pub opened : List ℕ → Message
opened stack = record { fields = stack; kind = type_opened }

abbrev pub closed : List ℕ → Message
closed stack = record { fields = stack; kind = type_closed }

-- `if (p)` on a pointer
abbrev pub is_some : Option ℕ → Bool
is_some none = false
is_some (some a) = true

-- `Terminal::Terminal`
unfoldable pub new_terminal : Option ℕ → Terminal
new_terminal port = record { port = port; retain_count = 1; connection = none }

-- `Terminal::Retain`
unfoldable pub retain : Kernel → ℕ → Kernel × Bool
retain k i =
    let t = k.terminals i in
    if is_some t.port
    then (put_terminal k i (record t { retain_count = inc32 t.retain_count }), true)
    else (k, false)

-- `Terminal::Sever`, with its assertion on the signed counter.
unfoldable pub sever : Kernel → ℕ → Option Kernel
sever k i =
    let t = k.terminals i in
    ensure (ltb 0 t.retain_count && ltb t.retain_count (2 ^ 31))
    >> some (put_terminal k i (record t { port = none }))

module _ (L : LinkedList Garbage) where
  -- `Terminal::Release`
  unfoldable pub release : Kernel → ℕ → Kernel
  release k i =
      let t = record (k.terminals i) { retain_count = dec32 (k.terminals i).retain_count } in
      if (t.retain_count == 0) && not (is_some t.port)
      then throw_away L (put_terminal k i t) (terminal_garbage i)
      else put_terminal k i t

module _ (P : LinkedList ℕ) where
  deliver_to : Kernel → Option ℕ → Message → Option Kernel
  deliver_to k none m = some k
  deliver_to k (some port) m = send_to_this P k port m

  -- `Terminal::Deliver`
  unfoldable pub deliver : Kernel → ℕ → Message → Option Kernel
  unfolding deliver_to
  deliver k i m = deliver_to k (k.terminals i).port m
