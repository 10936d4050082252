-- ===== src/Quota.antt =====
-- apps/worker/src/modules/auto-ria-quota.ts: the budget of requests to the API of AUTO.RIA.
pub mod Budget
pub mod Agreement
pub mod History
pub mod Window
mod Examples
