-- ===== src/Arch.antt =====
-- kernel/src/arch/all: what the kernel asks of an architecture.
pub mod Program
