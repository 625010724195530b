-- ===== src/Failover.antt =====
-- host_control_plane/failover_orchestrator.py: HA pairs, failover of a compromised active node, and
-- the background cure that brings a node back as a standby.
-- Each method runs under the orchestrator's lock, so it is one step; the two locked parts of
-- `_cure_and_rejoin` are two steps, with the backend's health check between them.
pub mod Types
pub mod Compromise
pub mod Cure
pub mod Steps
pub mod Nodes
pub mod Invariant
pub mod Safety
pub mod Promotion
pub mod Availability
pub mod Races
mod Tests
