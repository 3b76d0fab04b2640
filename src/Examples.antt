-- ===== src/Examples.antt =====
-- The theorems at concrete inputs, by the part of the program that they are about.
pub mod Kernel
pub mod Extensions
pub mod Dispatching
pub mod Booting
pub mod Messages
pub mod Running
pub mod Machines
pub mod Settings
pub mod Auditing
pub mod Containing
pub mod Tasking
pub mod Commanding
pub mod Remembering
