-- ===== src/Shared.antt =====
-- packages/shared/src/utils: what the API and the workers share.
pub mod Metrics
mod Examples
