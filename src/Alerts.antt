-- ===== src/Alerts.antt =====
-- host_control_plane/alert_manager.py: the queue of alerts that analysts work. Times are in
-- milliseconds; an alert's id is its number, which the source prints as ALRT-00001.
pub mod Queue
pub mod Identity
pub mod Dedupe
pub mod Metrics
mod Tests
