-- ===== src/Memory.antt =====
-- kernel/src/memory: the entry of page faults.
pub mod PageFault
pub mod Handled
pub mod System
pub mod Safety
