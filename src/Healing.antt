-- ===== src/Healing.antt =====
-- self_healing/: the circuit breaker, the health monitor and the healing orchestrator. Times are
-- ticks of one clock.
pub mod Breaker
pub mod Monitor
pub mod Orchestrator
mod Tests
