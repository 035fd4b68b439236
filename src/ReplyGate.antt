-- ===== src/ReplyGate.antt =====
-- `ReplyGate` (app/personal_wechat_bot/reply_gate/gate.py): what becomes of a reply in each mode, over
-- the queue, if there is one, and the state `W` behind the driver.
use Prim.Native.String
use chatbot_win.Prelude.{
  String, Bool, true, false, Option, none, some, ◌≡◌, ◌≢◌, refl, ◌⊎◌, inl, inr,
}
use chatbot_win.Domain.{
  SendMode, dry_run, confirm, auto, skipped, queued_for_confirm, failed, ReplyCandidate, SendStatus,
  SendResult,
}
use chatbot_win.ConfirmQueue.Item.{Env}
use chatbot_win.ConfirmQueue.Store.{Queue}
use chatbot_win.ConfirmQueue.Review.{enqueue}
use chatbot_win.SendExecutor.Guards.{SendConfig, Driver}
use chatbot_win.SendExecutor.Execute.{Host, execute}
use chatbot_win.SendExecutor.Permitted.{Permitted, execute-Permitted}
mod Tests

-- `GuardedSendExecutor`
pub record Executor (W : Type 0) : Type 0 where
  pub host : Host
  pub config : SendConfig
  pub driver : Option (Driver W)

pub record Gate (W : Type 0) : Type 0 where
  pub mode : SendMode
  pub auto_executor : Option (Executor W)

pub record World (W : Type 0) : Type 0 where
  pub confirm_queue : Option Queue
  pub outside : W

abbrev result : ReplyCandidate → SendStatus → String → SendResult
result reply status reason = record {
  message_id = reply.message_id;
  conversation_id = reply.conversation_id;
  status = status;
  reason = reason;
  sent_at = "";
  details = none;
}

module _ {W : Type 0} where
  abbrev confirm_by : Env → ReplyCandidate → W → Option Queue → SendResult × World W
  confirm_by env reply w none = (
    result reply queued_for_confirm "confirm_required",
    record { confirm_queue = none; outside = w },
  )
  confirm_by env reply w (some q) = (
    result reply queued_for_confirm (String.◌++◌ "confirm_required:" (enqueue env reply q).1),
    record { confirm_queue = some (enqueue env reply q).0; outside = w },
  )

  abbrev send_by : Option (Executor W) → ReplyCandidate → World W → SendResult × World W
  send_by none reply s = (result reply failed "auto_send_executor_missing", s)
  send_by (some e) reply s =
      let sent = execute e.host e.config e.driver reply s.outside in
      (sent.0, record s { outside = sent.1 })

  abbrev handle_in :
      SendMode → Option (Executor W) → Env → ReplyCandidate → World W → SendResult × World W
  handle_in dry_run executor env reply s = (result reply skipped "dry_run", s)
  handle_in confirm executor env reply s = confirm_by env reply s.outside s.confirm_queue
  handle_in auto executor env reply s = send_by executor reply s

  unfoldable pub handle : Gate W → Env → ReplyCandidate → World W → SendResult × World W
  handle gate env reply s = handle_in gate.mode gate.auto_executor env reply s

  handle_in-sends :
      (mode : SendMode) (executor : Option (Executor W)) (env : Env) (reply : ReplyCandidate)
      (q : Option Queue) (w : W)
      → (handle_in mode executor env reply (record { confirm_queue = q; outside = w })).1.outside
        ≢ w
      → (mode ≡ auto)
        × ((e : Executor W) × ((executor ≡ some e) × Permitted e.config e.driver reply))
  handle_in-sends dry_run executor env reply q w h = absurd (h refl)
  handle_in-sends confirm executor env reply none w h = absurd (h refl)
  handle_in-sends confirm executor env reply (some q) w h = absurd (h refl)
  handle_in-sends auto none env reply q w h = absurd (h refl)
  handle_in-sends auto (some e) env reply q w h =
      (refl, (e, (refl, execute-Permitted e.host e.config e.driver reply w h)))

  -- The gate changes something behind the driver only in the mode auto, with an executor whose guards
  -- permit the reply: a dry run and a reply that waits for its confirmation send nothing.
  pub handle-auto :
      (gate : Gate W) (env : Env) (reply : ReplyCandidate) (s : World W)
      → (handle gate env reply s).1.outside ≢ s.outside
      → (gate.mode ≡ auto)
        × ((e : Executor W) × ((gate.auto_executor ≡ some e) × Permitted e.config e.driver reply))
  unfolding handle
  handle-auto gate env reply s h =
      handle_in-sends gate.mode gate.auto_executor env reply s.confirm_queue s.outside h
