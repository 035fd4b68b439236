-- ===== src/Admission.antt =====
-- Which conversations may open a channel: app/personal_wechat_bot/conversation/channel_admission.py.
mod Explicit
mod Titles
mod Rules
mod Verdicts
mod Unmarked
mod Stranger
mod Tests
