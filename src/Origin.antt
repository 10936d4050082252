-- ===== src/Origin.antt =====
-- apps/worker/src/modules/olx-request-coordinator.ts: the one queue through which every request to
-- the OLX origin goes, and the canary of its quiet period.
pub mod Request
pub mod Canary
pub mod State
pub mod Coordinator
pub mod Steps
pub mod Flight
pub mod Accounting
pub mod Circuit
pub mod Settled
pub mod Protected
pub mod Order
pub mod Progress
pub mod Evidence
pub mod Rollback
mod Examples
