-- ===== src/Tasks.antt =====
-- The task manager: app/personal_wechat_bot/tasks/manager.py.
pub mod Record
pub mod Scores
pub mod Merge
pub mod Dispatch
pub mod Preview
mod Samples
pub mod Store
