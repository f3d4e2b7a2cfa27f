-- ===== src/X64.antt =====
-- kernel/src/arch/x64.
pub mod Image
pub mod Sectors
pub mod Faults
pub mod Frames
pub mod Program
