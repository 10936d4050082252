-- ===== src/Lease.antt =====
-- Leases of apps/worker/src/modules: who may act as the hot worker, and for how long a collector run
-- and a claim on a listing are owned.
pub mod Leadership
pub mod Exclusion
pub mod Stopping
pub mod Collector
pub mod Claim
pub mod Telegram
mod Examples
