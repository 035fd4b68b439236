-- ===== src/Resources.antt =====
-- Budgets of local resources: resource_governor.py, resource_scheduler.py and resource_gate.py under
-- app/personal_wechat_bot/runtime/.
pub mod Recommend
pub mod Split
pub mod Slots
pub mod Gate
mod Bounds
mod Monotone
mod Held
mod Leases
mod Exclusive
mod Tests
