-- ===== src/Tasks.antt =====
-- kernel/src/tasks.
pub mod Task
pub mod Lifecycle
pub mod Stored
pub mod Life
pub mod Kinds
pub mod Emptied
pub mod Ending
pub mod HoldScope
pub mod Holding
pub mod Scopes
pub mod Insiders
pub mod Entering
pub mod Held
pub mod Inside
pub mod Steady
pub mod Settled
