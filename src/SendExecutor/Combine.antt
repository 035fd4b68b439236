-- ===== src/SendExecutor/Combine.antt =====
-- How the results of the parts of a send become one result (reply_gate/send_executor.py).
use chatbot_win.Prelude.{
  String, Bool, ◌&&◌, Option, none, some, List, [], ◌∷◌, ◌++◌, ◌+◌, any, all, length, keep,
  if◌then◌else◌, nonempty, strip, starts_with, or_else, join, mem, unique,
}
use chatbot_win.Domain.{
  SendStatus, queued_to_bridge, accepted, sent, failed, status_text, status_is, ReplyCandidate,
  TextPart, FileSendResult, SendDetails, SendResult,
}

abbrev pub last : SendStatus → List SendStatus → SendStatus
last s [] = s
last s (t ∷ ts) = last t ts

-- `_combined_status`; a status is never blank.
unfoldable pub combined_status : List SendStatus → SendStatus
combined_status [] = failed
combined_status (s ∷ ss) =
    if any (status_is failed) (s ∷ ss)
    then failed
    else if any (status_is queued_to_bridge) (s ∷ ss)
    then queued_to_bridge
    else if any (status_is accepted) (s ∷ ss)
    then accepted
    else if all (status_is sent) (s ∷ ss)
    then sent
    else last s ss

abbrev pub statuses_of : List FileSendResult → List SendStatus
statuses_of [] = []
statuses_of (f ∷ fs) = f.status ∷ statuses_of fs

abbrev pub is_bridge_id : String → Bool
is_bridge_id id = starts_with id "bridge:"

unfoldable pub file_bridge_ids : List FileSendResult → List String
file_bridge_ids [] = []
file_bridge_ids (f ∷ fs) =
    if is_bridge_id f.message_id then f.message_id ∷ file_bridge_ids fs else file_bridge_ids fs

abbrev text_part : SendResult → TextPart
text_part t = record {
  status = t.status;
  reason = t.reason;
  message_id = t.message_id;
  sent_at = t.sent_at;
}

-- `_combined_details`
unfoldable pub combined_details : Option SendResult → List FileSendResult → SendDetails
combined_details none files = record {
  kind = "file_send";
  bridge_ids = file_bridge_ids files;
  text = none;
  files = files;
  part_count = length files;
}
combined_details (some t) files = record {
  kind = elim files [ [] ↦ "file_send" | f ∷ fs ↦ "multi_part_send" ];
  bridge_ids =
      if is_bridge_id t.message_id
      then t.message_id ∷ file_bridge_ids files
      else file_bridge_ids files;
  text = some (text_part t);
  files = files;
  part_count = 1 + length files;
}

-- `next((item.message_id for item in results if item.message_id), default)`
unfoldable pub first_message_id : String → List FileSendResult → String
first_message_id default [] = default
first_message_id default (f ∷ fs) = or_else f.message_id (first_message_id default fs)

unfoldable pub file_reasons : List FileSendResult → List String
file_reasons [] = []
file_reasons (f ∷ fs) =
    join "" (f.name ∷ ":" ∷ status_text f.status ∷ ":" ∷ f.reason ∷ []) ∷ file_reasons fs

-- `_combined_file_send_result`
unfoldable pub combined_file_send_result : ReplyCandidate → List FileSendResult → SendResult
combined_file_send_result reply results = record {
  message_id = first_message_id reply.message_id results;
  conversation_id = reply.conversation_id;
  status = combined_status (statuses_of results);
  reason = join ";" (file_reasons results);
  sent_at = "";
  details = some (combined_details none results);
}

abbrev text_reason : SendResult → String
text_reason t = join "" ("text:" ∷ status_text t.status ∷ ":" ∷ t.reason ∷ [])

-- `_combined_text_and_file_send_result`
unfoldable pub combined_text_and_file_send_result :
    ReplyCandidate → SendResult → List FileSendResult → SendResult
combined_text_and_file_send_result reply t results = record {
  message_id = or_else t.message_id (first_message_id reply.message_id results);
  conversation_id = reply.conversation_id;
  status = combined_status (t.status ∷ statuses_of results);
  reason =
      if nonempty (join ";" (file_reasons results))
      then join "" (text_reason t ∷ ";files:" ∷ join ";" (file_reasons results) ∷ [])
      else text_reason t;
  sent_at = t.sent_at;
  details = some (combined_details (some t) results);
}

abbrev stripped : List String → List String
stripped [] = []
stripped (x ∷ xs) = strip x ∷ stripped xs

abbrev pub detail_ids : Option SendDetails → List String
detail_ids none = []
detail_ids (some d) = keep is_bridge_id (stripped d.bridge_ids)

abbrev with_own_id : SendResult → List String → List String
with_own_id r [] =
    if status_is queued_to_bridge r.status && is_bridge_id r.message_id
    then r.message_id ∷ []
    else []
with_own_id r (x ∷ xs) = x ∷ xs

-- `send_result_bridge_ids`
unfoldable pub send_result_bridge_ids : SendResult → List String
send_result_bridge_ids r = unique (with_own_id r (detail_ids r.details))

abbrev text_status : List String → Option TextPart → List SendStatus
text_status ids none = []
text_status ids (some t) =
    if nonempty (strip t.message_id) && mem (strip t.message_id) ids then [] else t.status ∷ []

abbrev file_statuses : List String → List FileSendResult → List SendStatus
file_statuses ids [] = []
file_statuses ids (f ∷ fs) =
    if nonempty (strip f.message_id) && mem (strip f.message_id) ids
    then file_statuses ids fs
    else f.status ∷ file_statuses ids fs

abbrev part_statuses : List String → Option SendDetails → List SendStatus
part_statuses ids none = []
part_statuses ids (some d) = text_status ids d.text ++ file_statuses ids d.files

-- `send_result_non_bridge_part_statuses`
unfoldable pub send_result_non_bridge_part_statuses : SendResult → List SendStatus
send_result_non_bridge_part_statuses r = part_statuses (send_result_bridge_ids r) r.details
