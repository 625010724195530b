-- ===== src/Control.antt =====
-- host_control_plane/control_center.py: the correlation engine, which scores telemetry, raises alerts,
-- decides a response and isolates virtual machines.
pub mod VmId
pub mod Scoring
pub mod Engine
pub mod Isolation
pub mod Server
mod Tests
