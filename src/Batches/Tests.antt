-- ===== src/Batches/Tests.antt =====
-- Concrete batches, and the theorems at them.
use chatbot_win.Prelude.{
  String, Bool, false, none, some, List, [], ◌∷◌, ◌≡◌, ◌≤◌, ◌⊎◌, refl, inl, arith, length, count,
  get, get_or, put, strip, lstrip, rstrip, is_space, ◌==◌, if◌then◌else◌,
}
use chatbot_win.Batches.Defer.{
  Raw, Normalized, Readers, Entry, is_live_timeline_message, is_reply_candidate, defer_reply,
  last_live_from, defer_from, defer_non_latest_live_messages,
}
use chatbot_win.Batches.Group.{group_from, group, queues_of}
use chatbot_win.Batches.Run.{
  filling, Job, Batch, returned, Step, submits, finishes, refills, submit, finish, Ended,
  start_batch,
}
use chatbot_win.Batches.Limits.{Reach, here, next, in_conversation}
use chatbot_win.Batches.Grouped.{entries_of}
use chatbot_win.Batches.Order.{log, raws_in, Reach-serial, Ended-log}
use chatbot_win.Batches.Ends.{steps, measure, start_batch-ends}

abbrev raw : String → Raw
raw id = record {
  raw_id = id;
  chat_title = "room";
  context_only = false;
  deferred_reply = false;
  deferred_reply_reason = "";
  deferred_reply_anchor_raw_id = "";
}

-- Everything comes from another person in one room; "x" cannot be normalized.
abbrev readers : Readers
readers = record {
  normalize = λ r.
      if r.raw_id == "x"
      then none
      else some (record {
        conversation_id = "room";
        context_only = r.context_only;
        event_type = "";
        is_self = false;
        text = r.raw_id;
      });
  is_reset_command = λ m. m.text == "reset";
}

abbrev reset : Normalized → Bool
reset m = m.text == "reset"

abbrev inbox : List Raw
inbox = raw "m1" ∷ raw "x" ∷ []

abbrev job : Job
job = record { conversation_id = "room"; raw = raw "m1" }

abbrev s0 : Batch String
s0 = start_batch readers inbox

abbrev s1 : Batch String
s1 = submit "room" [] s0

abbrev s2 : Batch String
s2 = finish [] job [] (returned (some "done")) s1

abbrev s3 : Batch String
s3 = record s2 { phase = filling }

whole_run : Reach 1 s0 s3
unfolding start_batch group group_from queues_of defer_non_latest_live_messages last_live_from
    defer_from is_live_timeline_message is_reply_candidate submit finish get get_or put strip lstrip
    rstrip is_space
whole_run =
    next
      (next (next here (submits "room" [] refl refl (omega arith) refl))
        (finishes [] job [] (returned (some "done")) refl (inl refl) refl refl))
      (refills refl refl)

at_end : Ended s3
unfolding start_batch group group_from queues_of defer_non_latest_live_messages last_live_from
    defer_from is_live_timeline_message is_reply_candidate submit finish get get_or put strip lstrip
    rstrip is_space
at_end = record { phase_filling = refl; none_pending = refl; none_running = refl }

Ended-log_example :
    raws_in "room" (log 1 s0 s3 whole_run)
    ≡ defer_non_latest_live_messages readers.is_reset_command (entries_of readers "room" inbox)
Ended-log_example = Ended-log String 1 readers inbox s3 whole_run "room" at_end

Reach-serial_example :
    (count (in_conversation "room") s3.running ≤ 1)
    × (length s3.running ≤ 1)
    × (s3.max_running_seen ≤ 1)
Reach-serial_example = Reach-serial String 1 readers inbox s3 whole_run "room"

start_batch-ends_example :
    (Ended s3 ⊎ ((u : Batch String) × Step 1 s3 u)) × (steps 1 s0 s3 whole_run ≤ measure s0)
start_batch-ends_example = start_batch-ends String 1 readers inbox s3 whole_run (omega arith)

abbrev entry : String → Entry
entry id = record {
  raw = raw id;
  message = record {
    conversation_id = "room";
    context_only = false;
    event_type = "";
    is_self = false;
    text = id;
  };
}

-- Of two live messages the first is deferred to the second.
defers_the_first :
    defer_non_latest_live_messages reset (entry "m1" ∷ entry "m2" ∷ [])
    ≡ defer_reply (raw "m1") "m2" ∷ raw "m2" ∷ []
unfolding defer_non_latest_live_messages last_live_from defer_from is_live_timeline_message
    is_reply_candidate strip lstrip rstrip is_space
defers_the_first = refl
