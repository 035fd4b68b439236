-- ===== src/Keys.antt =====
-- The pool of API keys and their assignment: app/personal_wechat_bot/llm/key_pool.py.
mod Parse
mod Pool
mod Distinct
mod Assigned
mod Removed
mod Tests
