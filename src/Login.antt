-- ===== src/Login.antt =====
-- apps/api: the logins of the dashboard and their rate limit.
pub mod Limit
pub mod Attempts
mod Examples
