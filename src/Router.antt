-- ===== src/Router.antt =====
-- The router of inbound messages: app/personal_wechat_bot/router/.
pub mod Deduper
pub mod Cooldown
pub mod Decide
mod Restarts
pub mod Turns
mod Latest
mod Spacing
mod Duplicates
mod Tests
