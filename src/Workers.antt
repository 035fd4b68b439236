-- ===== src/Workers.antt =====
-- The queue of short worker processes: app/personal_wechat_bot/agent/worker_queue.py.
mod Queue
mod Counts
mod Reports
mod Cared
mod Settled
mod Run
mod Ends
mod Tests
