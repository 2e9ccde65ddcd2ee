-- ===== src/Monitoring.antt =====
-- Monitoring (app/monitoring): thresholds, incidents, their deduplication, and cooldowns.
pub mod Thresholds
pub mod Cooldown
pub mod Incidents
pub mod Deduplication
mod Examples
