-- ===== src/Lib.antt =====
-- Alux is a small microkernel: tasks and their threads, a round-robin scheduler with a garbage
-- collector, messages between ports, system calls, and the demand paging of a program on x64. This
-- library models the kernel's own code. Paths below stand under kernel/src.
--
-- Prelude has the shared helpers: tests on numbers, words, stores (a function from addresses to
-- objects), code that may stop (`none` is a failed assertion or a panic), sums over lists, and the
-- interfaces of the two container libraries that the repository uses and does not hold: `LinkedList`
-- for ansa::LinkedList and `IdMap` for the maps of anidmap. They are parameters of whatever uses them.
--
-- Kernel has the records of all objects (the classes Thread, SleepState, PollState, ThreadPort,
-- Terminal, Connection, Message, ThreadObj) and the store that holds them by address. A method is a
-- function from the store to the store with its result. `delete` gives an address back its empty
-- record; a connection has a flag instead, to tell accesses after its deletion, and the links that the
-- loops of Task::Dealloc and Thread::Dealloc read inside deleted objects are kept in `stale_links`.
--
-- Tasks: Task has the methods of tasks/task.cpp on a task alone, Stored the same at an address of the
-- store, where ThrowAway reaches the collector, Life entering the scheduler and Dealloc, HoldScope
-- tasks/hold-scope.cpp, Kinds tasks/user-task.cpp and kernel-task.cpp; Scopes has the threads with the
-- scopes that they have entered, as steps. Lifecycle, Emptied, Ending, Holding, Insiders, Entering,
-- Inside, Steady, Settled and Held have the proofs.
-- Threads: Access, Counts, Life and Exit are threads/thread.cpp, Poll is threads/poll-state.cpp, Ports
-- threads/thread-port.cpp, Sleep is threads/sleep-state.cpp with NanosFromNow of util/time.cpp;
-- References, Deallocation, Starting, Traces, Pending and Wakeups have the proofs.
-- Scheduler: Collector and Main are scheduler/garbage-collector.cpp and garbage-object.cpp, Queue,
-- Switch and Timer scheduler/rr-scheduler.cpp, with the CPUs as a machine in Timer; Contract is
-- scheduler/scheduler.hpp, Promises its calls on the round-robin scheduler; Selection, Exclusion,
-- Stable, Spares, Turns, Fairness, Barred, Exits, Sound, Safely, Settling, Yielding, Fulfilled,
-- Notice, Attention, Attended, Collected and Lives have the proofs.
-- Boot: Start is the constructor and Run of the scheduler and the kernel's part of
-- arch/x64/main.cpp, Main the whole of its AluxMainX64; Established, Running, Program and Lasting have
-- the proofs.
-- Util: Lock is util/noncritical-lock.cpp; Callers has its callers with their steps, FairLock what a
-- lock promises that serves in order; Tokens, Explained, Exclusion and Refinement have the proofs.
-- Ipc: Terminals, Connections and Ports are the files of ipc; Lifecycle, Attachment, Delivery and
-- Closing have the proofs.
-- Syscalls: Memory is syscall/memory.cpp, Handler syscall/handler.cpp, Threads is
-- syscall/thread.cpp with Find of containers/retain-hash-map.hpp, Ports syscall/port.cpp, Console
-- syscall/console.cpp, time.cpp and task.cpp, Results what they share; Calls puts all of them behind
-- the numbers of Handler, on one kernel, and System has the CPUs of Scheduler.Timer with these calls
-- and the ends of sleeps.
-- Answers, Quiet, Privileges, Launching, Sleeping, Waking, Porting, Printing, Harmless, Leaving, Frames,
-- Delays, Conduct, Requests and Safety have the proofs.
-- Arch: Program is arch/all/executable.hpp and executable-map.hpp, the interface of a program, which
-- Memory takes and X64/Program fills.
-- Memory: PageFault is memory/page-fault.cpp; System has the whole machine, the CPUs with system calls
-- and page faults; Handled and Safety have the proofs.
-- X64: Image is arch/x64/program-image.cpp and executable.cpp, Sectors arch/x64/executable-map.cpp;
-- Faults and Frames have the proofs.
-- Examples has inputs at which the theorems apply, and tests.
--
-- How the parts meet: Thread::Retain and Release carry references to the thread's task; the last
-- release puts the task, thread or terminal on the collector's list and clears the timeout of the
-- collector's thread; the scheduler retains a thread while a CPU runs it; a HoldScope keeps the task
-- of the current thread alive during a system call; a message goes from a port through its terminal
-- and the connection to the remote terminal and port, which queues itself on its thread.
--
-- A method that holds a lock throughout is one step; one that gives its lock back and waits, as
-- Sleep does, is a step up to there and a step after. An `int` counter is its pattern of 32 bits,
-- with the wrap-around written out, and so are the sums of 32 and 64 bits; theorems name the bound
-- under which a counter does not overflow. Loops run over lists or over a number of rounds, so no
-- fuel is needed but for the loop of PrintSyscall, whose end depends on the user's memory. The
-- clock, the timer's scale, what an allocation returns and what a memory map answers are arguments;
-- calls of anarch and ansa that matter are logged in order.
--
-- Not modelled: criticality but for the flag that HoldScope saves and SyscallHandler asserts, operator
-- new and delete, which hand on to anarch's allocator, the loading of anarch's modules at boot, and
-- assembly. The machines of Syscalls/System and Memory/System have no step for the rounds of the
-- collector, which are on their own in Scheduler/Main; and a system call or a page fault is one step
-- there.
pub mod Prelude
pub mod Kernel
pub mod Ipc
pub mod Scheduler
pub mod Syscalls
pub mod Tasks
pub mod Threads
pub mod Arch
pub mod Boot
pub mod Memory
pub mod Util
pub mod X64
mod Examples
