-- ===== src/Batches.antt =====
-- Batches of inbound messages: app/personal_wechat_bot/runtime/conversation_scheduler.py.
pub mod Defer
pub mod Group
pub mod Run
mod Anchor
mod Grouped
mod Limits
mod Order
mod Ends
mod Tests
