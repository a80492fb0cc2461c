-- ===== src/Iris.antt =====
-- src/iris: the decode session and the slot pools it owns.
pub mod Types
pub mod Monad
pub mod Kernel
pub mod Slots
pub mod Session
mod Examples
