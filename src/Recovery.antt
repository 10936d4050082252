-- ===== src/Recovery.antt =====
-- The recovery of coverage after an outage: apps/worker/src/modules/source-search-plan.ts.
pub mod Plan
pub mod State
pub mod Scan
pub mod Windows
pub mod Alert
pub mod Chronic
mod Examples
