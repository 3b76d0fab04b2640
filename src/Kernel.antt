-- ===== src/Kernel.antt =====
-- The kernel (sagittarius_engine/kernel).
pub mod Lifecycle
pub mod Descriptors
pub mod ExtensionSort
pub mod ExtensionManager
pub mod Dispatcher
pub mod Boot
