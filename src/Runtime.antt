-- ===== src/Runtime.antt =====
-- The runtime services (sagittarius_engine/runtime).
pub mod ExclusiveAction
pub mod ResourceScope
pub mod HostedServices
pub mod Scheduler
pub mod TaskManager
