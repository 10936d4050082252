-- ===== src/Worker.antt =====
-- apps/worker/src/modules: policies of the worker around the OLX origin and its recoveries.
pub mod OriginPolicy
pub mod Cooling
pub mod Incident
pub mod RecoveryProgress
pub mod Deadlines
pub mod LaneArbiter
pub mod Parallel
pub mod Pending
pub mod Completion
mod Examples
