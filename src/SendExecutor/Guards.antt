-- ===== src/SendExecutor/Guards.antt =====
-- What must hold before a reply may be sent (reply_gate/send_executor.py).
use chatbot_win.Prelude.{
  ℕ, String, Bool, true, false, not, ◌&&◌, ◌||◌, Option, none, some, List, [], ◌∷◌, ltb,
  if◌then◌else◌, nonempty, strip, len, keep, is_some, ◌==◌, ◌⊎◌,
}
use chatbot_win.Domain.{Attachment, ReplyCandidate, SendResult}

-- The fields of `BotConfig` that the guards read.
pub record SendConfig : Type 0 where
  pub send_enabled : Bool
  pub send_driver : String
  pub send_confirm_required : Bool
  pub send_max_chars : ℕ

-- A sending driver over the state `W` of what is behind it; `send_file` is none where it has no such
-- method, and gives the text of the exception where it raises.
pub record Driver (W : Type 0) : Type 0 where
  pub send_message : String → String → W → SendResult × W
  pub send_file : Option (String → String → String → W → (String ⊎ SendResult) × W)

-- `SendExecutionDecision`
pub record SendExecutionDecision : Type 0 where
  pub allowed : Bool
  pub reason : String

-- `_sendable_attachments`
unfoldable pub sendable_attachments : List Attachment → List Attachment
sendable_attachments items = keep (λ a. nonempty (strip a.path)) items

abbrev pub has_attachments : List Attachment → Bool
has_attachments [] = false
has_attachments (a ∷ rest) = true

abbrev pub can_send_files : {W : Type 0} → Driver W → Bool
can_send_files d = is_some d.send_file

abbrev deny : String → SendExecutionDecision
deny reason = record { allowed = false; reason = reason }

abbrev within_length : SendConfig → ReplyCandidate → SendExecutionDecision
within_length config reply =
    if ltb config.send_max_chars (len reply.text)
    then deny "reply_too_long"
    else record { allowed = true; reason = "allowed" }

abbrev check_content : {W : Type 0} → SendConfig → Driver W → ReplyCandidate → SendExecutionDecision
check_content config d reply =
    if nonempty (strip reply.text)
    then within_length config reply
    else if not (has_attachments (sendable_attachments reply.attachments))
    then deny "empty_reply"
    else if not (can_send_files d)
    then deny "file_send_driver_missing"
    else within_length config reply

abbrev check_driver :
    {W : Type 0} → SendConfig → Option (Driver W) → ReplyCandidate → Bool → SendExecutionDecision
check_driver config none reply confirmed = deny "send_driver_missing"
check_driver config (some d) reply confirmed =
    if config.send_confirm_required && not confirmed
    then deny "confirm_required"
    else check_content config d reply

-- `_can_send`
unfoldable pub can_send :
    {W : Type 0} → SendConfig → Option (Driver W) → ReplyCandidate → Bool → SendExecutionDecision
can_send config driver reply confirmed =
    if not config.send_enabled
    then deny "send_enabled_false"
    else if not (nonempty config.send_driver) || config.send_driver == "not_implemented"
    then deny "send_driver_not_configured"
    else check_driver config driver reply confirmed
