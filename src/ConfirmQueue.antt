-- ===== src/ConfirmQueue.antt =====
-- The human confirmation queue: app/personal_wechat_bot/reply_gate/confirm_queue.py.
pub mod Item
pub mod Store
pub mod Claims
pub mod Review
pub mod Bridge
pub mod Retry
mod Rows
mod Scans
pub mod Moves
pub mod Requeued
mod Reasons
mod Resent
pub mod Safety
pub mod AtMostOnce
mod Contended
pub mod Holder
mod Tests
