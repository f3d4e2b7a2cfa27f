-- ===== src/Syscalls.antt =====
-- kernel/src/syscall.
pub mod Results
pub mod Memory
pub mod Threads
pub mod Ports
pub mod Porting
pub mod Console
pub mod Printing
pub mod Waking
pub mod Launching
pub mod Privileges
pub mod Handler
pub mod Calls
pub mod Answers
pub mod Quiet
pub mod Sleeping
pub mod Harmless
pub mod Leaving
pub mod Frames
pub mod Delays
pub mod Conduct
pub mod System
pub mod Requests
pub mod Safety
