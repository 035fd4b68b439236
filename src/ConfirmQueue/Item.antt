-- ===== src/ConfirmQueue/Item.antt =====
-- The records of the confirmation queue and their status graph (confirm_queue.py). A record holds
-- what the code writes into the dict; a key that is absent reads as the empty text or list, as the
-- code's `item.get(key) or ""` does.
use chatbot_win.Prelude.{
  ℕ, String, Bool, true, false, ◌&&◌, ◌||◌, not, Option, none, some, List, ◌≡◌, arith, nat_eq,
  if◌then◌else◌, nonempty, strip, ◌==◌, Dict,
}
use chatbot_win.Domain.{ReplyCandidate}

pub data Status : Type 0 where
  pending approved rejected queued_to_bridge sent accepted failed : Status

abbrev pub status_text : Status → String
status_text pending = "pending"
status_text approved = "approved"
status_text rejected = "rejected"
status_text queued_to_bridge = "queued_to_bridge"
status_text sent = "sent"
status_text accepted = "accepted"
status_text failed = "failed"

abbrev rank : Status → ℕ
rank pending = 0
rank approved = 1
rank rejected = 2
rank queued_to_bridge = 3
rank sent = 4
rank accepted = 5
rank failed = 6

-- `current_status == status`
unfoldable pub status_eq : Status → Status → Bool
status_eq a b = nat_eq (rank a) (rank b)

-- `_ALLOWED_TRANSITIONS`
unfoldable pub allowed : Status → Status → Bool
allowed pending approved = true
allowed pending rejected = true
allowed approved rejected = true
allowed approved queued_to_bridge = true
allowed approved sent = true
allowed approved accepted = true
allowed approved failed = true
allowed queued_to_bridge sent = true
allowed queued_to_bridge accepted = true
allowed queued_to_bridge failed = true
allowed accepted sent = true
allowed accepted failed = true
allowed failed sent = true
allowed failed accepted = true
allowed _ _ = false

-- `_validate_transition`: false where the code raises `ValueError`.
unfoldable pub validate_transition : Status → Status → Bool
unfolding status_eq allowed
validate_transition current status = status_eq current status || allowed current status

pub record Claim : Type 0 where
  pub token : String
  pub owner : String
  -- 0 where the stored value is no positive integer
  pub owner_pid : ℕ
  pub owner_process_start : String
  pub claimed_at : String

-- `last_send_claim`: a claim with how it ended.
pub record ResolvedClaim : Type 0 where
  pub claim : Claim
  pub resolved_at : String
  pub resolution : String

-- An entry of `bridge_acks`.
pub record BridgeAck : Type 0 where
  pub bridge_id : String
  pub queue_status : String
  pub status : String

-- A part of a multi-part send: `details["text"]` or an entry of `details["files"]`.
pub record SendPart : Type 0 where
  pub message_id : String
  pub bridge_id : String
  pub external_id : String
  pub status : String
  pub reason : String
  pub sent_at : String
  pub retry_of : String
  pub retry_at : String
  pub updated_at : String
  pub external_message_id : String
  pub last_bridge_ack : Option BridgeAck

pub record SendDetails : Type 0 where
  pub bridge_ids : List String
  pub text : Option SendPart
  pub files : List SendPart
  pub bridge_acks : Dict BridgeAck
  pub last_bridge_ack : Option BridgeAck

-- `item["send_result"]`: the part of the whole send, and its details if there are any.
pub record SendPayload : Type 0 where
  pub part : SendPart
  pub open part use *
  pub details : Option SendDetails

pub record Item : Type 0 where
  pub queue_id : String
  pub status : Status
  pub created_at : String
  pub reviewed_at : String
  pub reviewer : String
  pub note : String
  pub reply : ReplyCandidate
  pub send_claim : Option Claim
  pub last_send_claim : Option ResolvedClaim
  pub retry_of : String
  pub bridge_ids : List String
  pub bridge_acks : Dict BridgeAck
  pub last_bridge_ack : Option BridgeAck
  pub send_result : Option SendPayload

-- What the operations read of the world: the clock, their own process, and the process table.
pub record Env : Type 0 where
  pub now : String
  pub pid : ℕ
  -- `uuid.uuid4().hex`
  pub token : String
  pub process_pid_alive : ℕ → Bool
  pub process_start_marker : ℕ → String
  -- whether the JSONL projection can be written, that is, no `OSError` is raised
  pub projection_writable : Bool

-- `_active_send_claim`: a claim whose token is blank is none.
abbrev pub active_claim : Option Claim → Option Claim
active_claim none = none
active_claim (some c) = if nonempty (strip c.token) then some c else none

unfoldable pub active_send_claim : Item → Option Claim
active_send_claim item = active_claim item.send_claim

-- `_send_claim_owner_is_alive`
unfoldable pub send_claim_owner_is_alive : Env → Claim → Bool
send_claim_owner_is_alive env claim =
    if nat_eq claim.owner_pid 0
    then true
    else if not (env.process_pid_alive claim.owner_pid)
    then false
    else not (
        nonempty claim.owner_process_start
        && nonempty (env.process_start_marker claim.owner_pid)
        && not (claim.owner_process_start == env.process_start_marker claim.owner_pid))

pub status_eq-eq : (a b : Status) → status_eq a b ≡ true → a ≡ b
unfolding status_eq
status_eq-eq a b h = ground arith
