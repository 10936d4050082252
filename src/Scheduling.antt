-- ===== src/Scheduling.antt =====
-- apps/api/src/modules/monitoring: how often the scheduler runs the collectors, and how deep.
pub mod Backfill
pub mod Cadence
pub mod Ramp
pub mod History
pub mod CadenceCanary
mod Examples
