-- ===== src/ConfirmQueue/Moves.antt =====
-- The confirmation queue (confirm_queue.py) as a transition system: what may happen to one record,
-- and a proof that every operation makes one such move, adds a pending record, or drops a record
-- that is not claimed.
mod Calls
mod Refine
mod Evolutions
mod Appends
mod Queues
mod Records
mod Answers
pub use Evolutions.*
pub use Queues.*
pub use Records.*
pub use Answers.*
pub use Calls.{Call, enqueues, claims, releases, reviews, marks, removes, requeues, updates}
unfoldable pub use Calls.{step, run}
pub use Refine.*
