-- ===== src/Ipc.antt =====
-- kernel/src/ipc.
pub mod Terminals
pub mod Connections
pub mod Ports
pub mod Lifecycle
pub mod Attachment
pub mod Delivery
pub mod Closing
