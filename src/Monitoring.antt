-- ===== src/Monitoring.antt =====
-- apps/api/src/modules/monitoring and the collector jobs that it enqueues: deadlines, budgets, queues, and
-- the orchestrator.
pub mod Deadlines
pub mod Jobs
pub mod Queues
pub mod Collisions
pub mod Orchestrator
pub mod Ticks
pub mod Background
pub mod Lifecycle
pub mod Protection
pub mod Response
pub mod Dispatch
mod Examples
