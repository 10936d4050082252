-- ===== src/Protection.antt =====
-- What the worker does when a source protects itself: how long it pauses.
pub mod Pauses
mod Examples
