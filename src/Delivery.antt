-- ===== src/Delivery.antt =====
-- The way of a listing to Telegram: packages/shared/src/utils/telegram-send-gate.ts and, of
-- apps/worker/src/modules, completeness-contract.ts, first-notification-dispatch.ts and
-- what cuts a burst into messages.
pub mod Burst
pub mod Gate
pub mod Spacing
pub mod Completeness
pub mod Dispatch
mod Examples
