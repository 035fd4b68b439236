-- ===== src/Batches/Defer.antt =====
-- `_defer_non_latest_live_messages` (conversation_scheduler.py): of the messages of a conversation that
-- arrive in one batch only the latest live one may be replied to. `normalize` and `is_reset_command`
-- are the normalizer's and the session store's, and are used through the record `Readers`.
use chatbot_win.Prelude.{
  ℕ, String, Bool, true, not, ◌&&◌, ◌||◌, Option, none, some, List, [], ◌∷◌, ◌+◌, ◌-◌, ltb, nat_eq,
  if◌then◌else◌, strip, ◌==◌,
}

-- `RawWeChatMessage`, with the entries of `driver_meta` that are written here.
pub record Raw : Type 0 where
  pub raw_id : String
  pub chat_title : String
  pub context_only : Bool
  pub deferred_reply : Bool
  pub deferred_reply_reason : String
  pub deferred_reply_anchor_raw_id : String

-- `NormalizedMessage`, with the entries of its metadata that are read here.
pub record Normalized : Type 0 where
  pub conversation_id : String
  pub context_only : Bool
  pub event_type : String
  pub is_self : Bool
  pub text : String

pub record Readers : Type 0 where
  pub normalize : Raw → Option Normalized
  pub is_reset_command : Normalized → Bool

pub record Entry : Type 0 where
  pub raw : Raw
  pub message : Normalized

-- `_is_live_timeline_message`
unfoldable pub is_live_timeline_message : Normalized → Bool
is_live_timeline_message m = not m.context_only && not (strip m.event_type == "recall")

-- `_defer_reply`
unfoldable pub defer_reply : Raw → String → Raw
defer_reply raw anchor_raw_id = record raw {
  context_only = true;
  deferred_reply = true;
  deferred_reply_reason = "batched_conversation_has_later_live_message";
  deferred_reply_anchor_raw_id = anchor_raw_id;
}

abbrev pub raws : List Entry → List Raw
raws [] = []
raws (e ∷ es) = e.raw ∷ raws es

-- `entries[index]`
abbrev pub entry_at : ℕ → List Entry → Option Entry
entry_at i [] = none
entry_at i (e ∷ es) = if nat_eq i 0 then some e else entry_at (i - 1) es

-- The first loop, from the index on with the last live index so far.
unfoldable pub last_live_from : ℕ → Option ℕ → List Entry → Option ℕ
last_live_from index last [] = last
last_live_from index last (e ∷ es) =
    last_live_from (index + 1) (if is_live_timeline_message e.message then some index else last) es

module _ (is_reset_command : Normalized → Bool) where
  -- `_is_reply_candidate`
  unfoldable pub is_reply_candidate : Normalized → Bool
  is_reply_candidate m = is_live_timeline_message m && not m.is_self && not (is_reset_command m)

  -- The second loop, from the index on.
  unfoldable pub defer_from : ℕ → ℕ → Bool → String → List Entry → List Raw
  defer_from index last anchored anchor_raw_id [] = []
  defer_from index last anchored anchor_raw_id (e ∷ es) =
      (if not (nat_eq index last) && is_reply_candidate e.message && (anchored || ltb index last)
        then defer_reply e.raw anchor_raw_id
        else e.raw)
      ∷ defer_from (index + 1) last anchored anchor_raw_id es

  abbrev pub defer_at : List Entry → ℕ → Option Entry → List Raw
  defer_at entries last none = raws entries
  defer_at entries last (some anchor) =
      defer_from 0 last (is_reply_candidate anchor.message) anchor.raw.raw_id entries

  abbrev pub defer_after : List Entry → Option ℕ → List Raw
  defer_after entries none = raws entries
  defer_after entries (some last) = defer_at entries last (entry_at last entries)

  unfoldable pub defer_non_latest_live_messages : List Entry → List Raw
  defer_non_latest_live_messages entries = defer_after entries (last_live_from 0 none entries)
