-- ===== src/Fsm.antt =====
-- The finite state machines (sagittarius_engine/extensions/fsm).
pub mod Base
pub mod Declarative
