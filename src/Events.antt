-- ===== src/Events.antt =====
-- pipelines/events: discrete events reconstructed from telemetry observations.
pub mod Models
pub mod Alarms
pub mod Transitions
pub mod Configuration
pub mod Sessions
