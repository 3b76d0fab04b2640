-- ===== src/EventBus.antt =====
-- The event buses (sagittarius_engine/infrastructure/event_bus).
pub mod Memory
pub mod Resilient
