-- ===== src/Util.antt =====
-- kernel/src/util: the lock for noncritical sections.
pub mod Lock
pub mod FairLock
pub mod Callers
pub mod Tokens
pub mod Explained
pub mod Exclusion
pub mod Refinement
