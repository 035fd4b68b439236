-- ===== src/Router/Decide.antt =====
-- `Router` (router/router.py). The channel store and the admission (conversation/channel_store.py,
-- conversation/channel_admission.py) are used through an interface.
use Prim.Native.String
use chatbot_win.Prelude.{
  String, Bool, true, false, ◌||◌, Option, none, some, List, [], ◌∷◌, if◌then◌else◌, nonempty,
  strip, mem, is_some, join, or_else,
}
use chatbot_win.Json.{Entries}
use chatbot_win.Router.Deduper.{Deduper, seen_any, mark, mark_many}

pub data ConversationType : Type 0 where
  private group : ConversationType

-- `NormalizedMessage`; three entries of its metadata that the router reads stand as fields of their own.
pub record Message : Type 0 where
  pub message_id : String
  pub conversation_id : String
  pub conversation_type : ConversationType
  pub chat_title : String
  pub sender_name : String
  pub sender_wechat_id : String
  pub metadata : Entries
  pub source : String
  pub dedupe_key : String
  -- `metadata.get("trusted_channel_source") is True`
  pub trusted_channel_source : Bool

pub data RouteAction : Type 0 where
  process ignore duplicate : RouteAction

pub record RouteDecision : Type 0 where
  pub message_id : String
  pub conversation_id : String
  pub action : RouteAction
  pub reason : String
  pub requires_topic_decision : Bool

-- `ChannelAdmission`
pub record Admission : Type 0 where
  pub allowed : Bool
  pub reason : String
  pub identity : String

-- What the router uses of the channel store `S` with channels `C`.
pub record Channels (S C : Type 0) : Type 0 where
  pub get_channel : String → S → Option C
  pub ensure_channel : Message → S → C × S
  -- `channel_admission_for_message` under the router's config
  pub admission : Message → Option C → Admission

abbrev trusted_channel_sources : List String
trusted_channel_sources =
    "backend_events_jsonl" ∷ "backend_file_watcher" ∷ "manual_backend_event" ∷ []

abbrev untrusted_channel_sources : List String
untrusted_channel_sources =
    "windows_snapshot" ∷ "ocr_file_card" ∷ "poll_ocr_window" ∷ "ocr_snapshot" ∷ []

-- `_trusted_channel_source`
unfoldable pub trusted_channel_source : Message → Bool
trusted_channel_source m = mem (strip m.source) trusted_channel_sources || m.trusted_channel_source

-- `_untrusted_channel_source`
unfoldable pub untrusted_channel_source : Message → Bool
untrusted_channel_source m = mem (strip m.source) untrusted_channel_sources

-- `_message_dedupe_ids`
unfoldable pub message_dedupe_ids : Message → List String
message_dedupe_ids m =
    if nonempty (strip m.dedupe_key)
    then m.message_id ∷ String.◌++◌ "dedupe:" (strip m.dedupe_key) ∷ []
    else m.message_id ∷ []

abbrev pub decision : Message → RouteAction → String → RouteDecision
decision m action reason = record {
  message_id = m.message_id;
  conversation_id = m.conversation_id;
  action = action;
  reason = reason;
  requires_topic_decision = false;
}

abbrev needs_topic : ConversationType → Bool
needs_topic private = false
needs_topic group = true

abbrev processed : Message → Bool → RouteDecision
processed m registered =
    record (decision m process
      (if registered then "channel auto registered" else "auto accepted conversation")) {
        requires_topic_decision = needs_topic m.conversation_type;
      }

abbrev pub State : Type 0 → Type 0
State S = record { deduper : Deduper; channels : Option S }

module _ {S C : Type 0} (access : Channels S C) where
  abbrev pub existing_channel : Message → Option S → Option C
  existing_channel m none = none
  existing_channel m (some s) = access.get_channel m.conversation_id s

  abbrev untrusted : Message → Bool → RouteDecision
  untrusted m known = decision m ignore (
      join ":" (
        (if known
          then "untrusted_channel_source_context_only"
          else "untrusted_channel_source_blocked")
        ∷ strip (or_else m.source "unknown")
        ∷ []))

  abbrev pub admitted : Message → Admission → S → RouteDecision × S
  admitted m a s = if a.allowed then (processed m true, (access.ensure_channel m s).1) else (
    decision m ignore (join ":" ("channel_admission_blocked" ∷ a.reason ∷ a.identity ∷ [])),
    s,
  )

  -- The rest of `decide` for a message that is no duplicate and whose source is not untrusted.
  abbrev pub register : Message → Option S → RouteDecision × Option S
  register m none = (processed m false, none)
  register m (some s) =
      let a = access.admission m (access.get_channel m.conversation_id s) in
      if trusted_channel_source m
      then ((admitted m a s).0, some (admitted m a s).1)
      else (processed m false, some s)

  unfoldable pub decide : Message → State S → RouteDecision × State S
  decide m s =
      let checked = seen_any (message_dedupe_ids m) s.deduper in
      let registered = register m s.channels in
      if checked.0
      then (decision m duplicate "message already processed", record s { deduper = checked.1 })
      else if untrusted_channel_source m
      then (untrusted m (is_some (existing_channel m s.channels)), record s { deduper = checked.1 })
      else (registered.0, record { deduper = checked.1; channels = registered.1 })

-- `mark_done`
unfoldable pub mark_done : {S : Type 0} → String → State S → State S
mark_done k s = record s { deduper = mark k s.deduper }

-- `mark_message_done`
unfoldable pub mark_message_done : {S : Type 0} → Message → State S → State S
mark_message_done m s = record s { deduper = mark_many (message_dedupe_ids m) s.deduper }
