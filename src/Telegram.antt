-- ===== src/Telegram.antt =====
-- apps/worker/src/modules/telegram-service.ts: the delivery of a listing's card to one chat.
pub mod Policy
pub mod Card
pub mod Senders
pub mod Accepted
pub mod Receipt
pub mod Fencing
pub mod Retry
pub mod Send
pub mod Cleanup
pub mod FirstSignals
pub mod Bundles
pub mod Listed
pub mod Admission
mod Examples
