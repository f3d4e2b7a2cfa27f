-- ===== src/Threads.antt =====
-- kernel/src/threads.
pub mod Access
pub mod Counts
pub mod Poll
pub mod References
pub mod Ports
pub mod Life
pub mod Starting
pub mod Deallocation
pub mod Traces
pub mod Exit
pub mod Pending
pub mod Sleep
pub mod Wakeups
