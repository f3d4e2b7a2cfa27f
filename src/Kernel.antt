-- ===== src/Kernel.antt =====
-- The objects of the kernel and the store that holds them. An address is a number; a pointer that
-- may be NULL is an `Option ℕ`.
use alux.Prelude.{◌∷◌, ℕ, Bool, false, Option, none, List, [], update, minus_one}
use alux.Tasks.Task.{Task}

-- kernel/src/ipc/message.hpp: `class Message`, with the five members of `fields` as 64-bit values.
pub record Message : Type 0 where
  pub fields : List ℕ
  pub kind : ℕ

-- kernel/src/threads/sleep-state.hpp: `class SleepState`
pub record SleepState : Type 0 where
  pub sleeping : Bool
  pub cancelled : Bool

-- kernel/src/threads/poll-state.hpp: `class PollState`
pub record PollState : Type 0 where
  pub polling : Bool
  pub pending_ports : List ℕ

-- kernel/src/threads/thread.hpp: `class Thread`. `port_list` is the sequence in which `Dealloc` goes
-- through the buckets of `portList`.
pub record Thread : Type 0 where
  pub task : ℕ
  pub identifier : ℕ
  pub retain_count : ℕ
  pub killed : Bool
  pub in_task : Bool
  pub in_scheduler : Bool
  pub holding_task : Bool
  pub sleep_state : SleepState
  pub poll_state : PollState
  pub port_list : List ℕ

-- kernel/src/scheduler/rr-scheduler.hpp: `struct ThreadObj`, stored at its thread's address.
pub record ThreadObj : Type 0 where
  pub deadline : ℕ
  pub running : Bool

-- kernel/src/ipc/terminal.hpp: `class Terminal`
pub record Terminal : Type 0 where
  pub port : Option ℕ
  pub retain_count : ℕ
  pub connection : Option ℕ

-- kernel/src/threads/thread-port.hpp: `class ThreadPort`, with the `terminal` of its base class
-- `Port` of kernel/src/ipc/port.hpp.
pub record ThreadPort : Type 0 where
  pub terminal : Option ℕ
  pub thread : ℕ
  pub identifier : ℕ
  pub is_queued : Bool
  pub last_message : Message

-- kernel/src/ipc/connection.hpp: `class Connection`. Beside its fields: whether it has been deleted,
-- and how often its lock was released after that.
pub record Connection : Type 0 where
  pub terminal1 : Option ℕ
  pub terminal2 : Option ℕ
  pub deleted : Bool
  pub stale_unlocks : ℕ

-- kernel/src/scheduler/garbage-object.hpp: the subclasses of `GarbageObject`, by address.
pub data Garbage : Type 0 where
  task_garbage thread_garbage terminal_garbage : ℕ → Garbage

-- The store: the objects by address, the list `threads` of `RRScheduler` with its `collectorThread`,
-- the list `objects` of `GarbageCollector`, the threads in each task's `threadList`, the tasks in the
-- scheduler's `taskList`, and each CPU's current thread. `stale_links` has the objects whose
-- `hashMapLink` has been read after their deletion, by address, the last one first.
pub record Kernel : Type 0 where
  pub tasks : ℕ → Task
  pub threads : ℕ → Thread
  pub objs : ℕ → ThreadObj
  pub terminals : ℕ → Terminal
  pub ports : ℕ → ThreadPort
  pub connections : ℕ → Connection
  pub run_queue : List ℕ
  pub collector_thread : ℕ
  pub garbage : List Garbage
  pub thread_lists : ℕ → List ℕ
  pub task_list : List ℕ
  pub current : ℕ → Option ℕ
  pub stale_links : List ℕ

abbrev pub put_task : Kernel → ℕ → Task → Kernel
put_task k i t = record k { tasks = update k.tasks i t }

abbrev pub put_thread : Kernel → ℕ → Thread → Kernel
put_thread k i t = record k { threads = update k.threads i t }

abbrev pub put_obj : Kernel → ℕ → ThreadObj → Kernel
put_obj k i o = record k { objs = update k.objs i o }

abbrev pub put_terminal : Kernel → ℕ → Terminal → Kernel
put_terminal k i t = record k { terminals = update k.terminals i t }

abbrev pub put_port : Kernel → ℕ → ThreadPort → Kernel
put_port k i p = record k { ports = update k.ports i p }

abbrev pub put_connection : Kernel → ℕ → Connection → Kernel
put_connection k i c = record k { connections = update k.connections i c }

-- The link in a deleted object is read.
abbrev pub put_stale : Kernel → ℕ → Kernel
put_stale k i = record k { stale_links = i ∷ k.stale_links }

-- An empty store, from which tests and examples start.
abbrev pub no_message : Message
no_message = record { fields = []; kind = 0 }

abbrev pub empty_task : Task
empty_task = record {
  identifier = 0;
  uid = 0;
  in_scheduler = false;
  retain_count = 0;
  hold_count = 1;
  kill_reason = minus_one;
}

abbrev pub empty_thread : Thread
empty_thread = record {
  task = 0;
  identifier = 0;
  retain_count = 1;
  killed = false;
  in_task = false;
  in_scheduler = false;
  holding_task = false;
  sleep_state = record { sleeping = false; cancelled = false };
  poll_state = record { polling = false; pending_ports = [] };
  port_list = [];
}

abbrev pub empty_kernel : Kernel
empty_kernel = record {
  tasks = λ _. empty_task;
  threads = λ _. empty_thread;
  objs = λ _. record { deadline = 0; running = false };
  terminals = λ _. record { port = none; retain_count = 1; connection = none };
  ports = λ _. record {
    terminal = none;
    thread = 0;
    identifier = 0;
    is_queued = false;
    last_message = no_message;
  };
  connections =
      λ _. record { terminal1 = none; terminal2 = none; deleted = false; stale_unlocks = 0 };
  run_queue = [];
  collector_thread = 0;
  garbage = [];
  thread_lists = λ _. [];
  stale_links = [];
  task_list = [];
  current = λ _. none;
}
