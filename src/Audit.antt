-- ===== src/Audit.antt =====
-- common/audit_log.py: the append-only decision log, a chain of hashes with signatures.
pub mod Types
pub mod Verify
pub mod Log
pub mod Chain
pub mod Acceptance
pub mod Recording
pub mod Unterminated
pub mod Commitment
mod Tests
