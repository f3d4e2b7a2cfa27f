-- ===== src/Scheduler.antt =====
-- kernel/src/scheduler.
pub mod Collector
pub mod Queue
pub mod Main
pub mod Switch
pub mod Selection
pub mod Exclusion
pub mod Stable
pub mod Lives
pub mod Safely
pub mod Spares
pub mod Turns
pub mod Fairness
pub mod Barred
pub mod Exits
pub mod Notice
pub mod Attention
pub mod Contract
pub mod Yielding
pub mod Promises
pub mod Fulfilled
pub mod Attended
pub mod Collected
pub mod Timer
pub mod Sound
pub mod Settling
