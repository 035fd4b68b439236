-- ===== src/Domain.antt =====
-- The shared data of app/personal_wechat_bot/domain/models.py. Fields that no modelled operation
-- reads or writes (policy hits, plan, monitor, model names, tool results) are left out.
use chatbot_win.Prelude.{ℕ, Bool, List, String, Option, nat_eq}

pub data SendStatus : Type 0 where
  skipped queued_for_confirm queued_to_bridge accepted sent failed : SendStatus

abbrev pub status_text : SendStatus → String
status_text skipped = "skipped"
status_text queued_for_confirm = "queued_for_confirm"
status_text queued_to_bridge = "queued_to_bridge"
status_text accepted = "accepted"
status_text sent = "sent"
status_text failed = "failed"

abbrev send_status_rank : SendStatus → ℕ
send_status_rank skipped = 0
send_status_rank queued_for_confirm = 1
send_status_rank queued_to_bridge = 2
send_status_rank accepted = 3
send_status_rank sent = 4
send_status_rank failed = 5

abbrev pub status_is : SendStatus → SendStatus → Bool
status_is a b = nat_eq (send_status_rank a) (send_status_rank b)

pub data SendMode : Type 0 where
  dry_run confirm auto : SendMode

-- An entry of `ReplyCandidate.attachments`.
pub record Attachment : Type 0 where
  pub path : String
  pub name : String
  pub status : String
  pub reason : String

pub record ReplyCandidate : Type 0 where
  pub message_id : String
  pub conversation_id : String
  pub text : String
  pub attachments : List Attachment
  pub created_at : String

-- The text part in `details["text"]`.
pub record TextPart : Type 0 where
  pub status : SendStatus
  pub reason : String
  pub message_id : String
  pub sent_at : String

-- `FileSendResult` (reply_gate/send_executor.py), an entry of `details["files"]`.
pub record FileSendResult : Type 0 where
  pub path : String
  pub name : String
  pub status : SendStatus
  pub reason : String
  pub message_id : String

pub record SendDetails : Type 0 where
  pub kind : String
  pub bridge_ids : List String
  pub text : Option TextPart
  pub files : List FileSendResult
  pub part_count : ℕ

-- `SendResult`: `sent_at` is the empty text where the code has None, `details` none where it is {}.
pub record SendResult : Type 0 where
  pub message_id : String
  pub conversation_id : String
  pub status : SendStatus
  pub reason : String
  pub sent_at : String
  pub details : Option SendDetails
