-- ===== src/Kernel.antt =====
-- The crate `kernel`.
pub mod Error
pub mod Permission
pub mod Capability
pub mod Task
pub mod Event
pub mod Audit
pub mod Doubles
pub mod Telemetry
