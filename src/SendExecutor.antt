-- ===== src/SendExecutor.antt =====
-- The guarded send executor: app/personal_wechat_bot/reply_gate/send_executor.py.
pub mod Combine
pub mod Guards
pub mod Execute
mod Statuses
pub mod Permitted
mod Files
mod Tests
