-- ===== src/Router/Tests.antt =====
-- The router on concrete messages, and its theorems applied to them.
use chatbot_win.Prelude.{
  String, true, false, none, some, List, [], ◌∷◌, ◌||◌, ◌≡◌, refl, any, mem, ◌*◌, nonempty, strip,
  lstrip, rstrip, is_space, get, put,
}
use chatbot_win.Json.{no_entries}
use chatbot_win.Router.Deduper.{opened, seen_any, mark_many, stripped_ids}
use chatbot_win.Router.Cooldown.{Cooldown, second, check, read_last_seen, mark}
use chatbot_win.Router.Decide.{
  Message, group, Channels, State, duplicate, decide, mark_message_done,
}
use chatbot_win.Router.Restarts.{known, seen_any-mark_many}
use chatbot_win.Router.Turns.{Event, begins, ends, marks, idle, turn, marked_at, begin, end}
use chatbot_win.Router.Spacing.{SpacedFrom, marks-SpacedFrom_last}
use chatbot_win.Router.Duplicates.{decided, marked, restarted, run, decide-mark_message_done}

abbrev message : Message
message = record {
  message_id = "m1";
  conversation_id = "room-1";
  conversation_type = group;
  chat_title = "room";
  sender_name = "Ann";
  sender_wechat_id = "";
  metadata = no_entries;
  source = "backend_events_jsonl";
  dedupe_key = "k1";
  trusted_channel_source = false;
}

-- A store that remembers the ids of the conversations, and admits all.
abbrev channels : Channels (List String) String
channels = record {
  get_channel = λ c ids. none;
  ensure_channel = λ m ids. (m.conversation_id, m.conversation_id ∷ ids);
  admission = λ m c. record { allowed = true; reason = "group_auto_channel"; identity = "room-1" };
}

abbrev fresh : State (List String)
fresh = record { deduper = opened (some []); channels = some [] }

strips : strip "m1" ≡ "m1"
unfolding strip lstrip rstrip is_space
strips = refl

decide-mark_message_done_example :
    (decide channels message (
      run channels
        (decided message ∷ restarted ∷ marked "m2" ∷ [])
        (mark_message_done message fresh))).0.action
    ≡ duplicate
decide-mark_message_done_example =
    decide-mark_message_done channels message (decided message ∷ restarted ∷ marked "m2" ∷ []) fresh
      refl strips_id
  where
    strips_id : nonempty (strip "m1") ≡ true
    strips_id = rw strips refl

seen_any-mark_many_example :
    (seen_any (" m1" ∷ []) (mark_many ("m1" ∷ "m2" ∷ []) (opened none))).0
    ≡ any
        (λ k. mem k (stripped_ids ("m1" ∷ "m2" ∷ [])) || known (opened none) k)
        (stripped_ids (" m1" ∷ []))
seen_any-mark_many_example = seen_any-mark_many (" m1" ∷ []) ("m1" ∷ "m2" ∷ []) (opened none)

abbrev ten_seconds : Cooldown
ten_seconds = record { seconds = 10; last_seen = []; rows = some [] }

-- The second message of "a" comes too early, the third does not.
abbrev messages : List Event
messages =
    begins "a" 1000000
    ∷ begins "b" 2000000
    ∷ ends "a" true
    ∷ begins "a" 10999999
    ∷ ends "a" true
    ∷ begins "a" 11000000
    ∷ ends "b" false
    ∷ ends "a" true
    ∷ []

marked_times : marks "a" messages (idle ten_seconds) ≡ 1000000 ∷ 11000000 ∷ []
unfolding marks turn marked_at begin end check read_last_seen mark get put
marked_times = refl

marks-SpacedFrom_last_example :
    SpacedFrom
      (ten_seconds.seconds * second)
      (read_last_seen "a" ten_seconds).0
      (marks "a" messages (idle ten_seconds))
marks-SpacedFrom_last_example = marks-SpacedFrom_last "a" messages ten_seconds refl
