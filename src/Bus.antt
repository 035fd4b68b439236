-- ===== src/Bus.antt =====
-- The files of JSON lines that the processes share: app/personal_wechat_bot/wechat_driver/jsonl_bus.py.
mod File
mod Text
mod Index
mod Once
mod Lines
mod Torn
mod Keys
mod Held
mod Sound
mod Served
mod Unique
mod Abstract
mod Stuck
mod Tests
