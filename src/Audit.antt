-- ===== src/Audit.antt =====
-- The trace protocol of extensions/audit: contracts.py and recorder.py.
pub mod Json
pub mod TraceRecord
pub mod Hello
pub mod ConfigEntry
pub mod FindingRecord
pub mod RegistrationState
pub mod ContainerState
pub mod EventState
pub mod LifecycleState
pub mod TaskRecord
pub mod ThreadPoolStats
pub mod BoundedStructures
pub mod DeadLetterEntry
pub mod StateMachineTransition
pub mod StateMachineState
pub mod UiThreadHealth
pub mod SignalsState
pub mod StateSnapshot
pub mod Masking
pub mod Envelope
pub mod Recorder
pub mod TraceServer
pub mod Client
