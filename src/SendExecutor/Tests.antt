-- ===== src/SendExecutor/Tests.antt =====
-- The send executor with a driver that writes down what it is told, and its theorems applied to it.
use chatbot_win.Prelude.{
  String, true, false, none, some, List, [], ◌∷◌, ◌≡◌, ◌≢◌, ◌↔◌, ◌⊎◌, refl, inr, any, ◌==◌, strip,
  lstrip, rstrip, is_space, len, keep,
}
use chatbot_win.Domain.{
  queued_to_bridge, sent, accepted, failed, status_is, Attachment, ReplyCandidate, SendResult,
}
use chatbot_win.SendExecutor.Combine.{combined_status}
use chatbot_win.SendExecutor.Guards.{SendConfig, Driver, can_send, sendable_attachments}
use chatbot_win.SendExecutor.Execute.{
  Host, SendFile, execute, deliver, deliverable, send_each, send_reply_files,
}
use chatbot_win.SendExecutor.Statuses.{combined_status-failed, combined_status-sent}
use chatbot_win.SendExecutor.Permitted.{Permitted, execute-Permitted}
use chatbot_win.SendExecutor.Files.{paths, result_paths, send_each-paths, send_each-deliverable}

abbrev queued : String → SendResult
queued text = record {
  message_id = "bridge:1";
  conversation_id = "room-1";
  status = queued_to_bridge;
  reason = "";
  sent_at = "";
  details = none;
}

abbrev send_file : SendFile (List String)
send_file conversation path caption told = (inr (queued path), path ∷ told)

abbrev driver : Driver (List String)
driver = record {
  send_message = λ conversation text told. (queued text, text ∷ told);
  send_file = some send_file;
}

abbrev config : SendConfig
config = record {
  send_enabled = true;
  send_driver = "bridge";
  send_confirm_required = true;
  send_max_chars = 100;
}

-- Every file is there but b.txt.
abbrev host : Host
host = record { exists = λ path. path == "a.txt"; path_name = λ path. path; lower = λ text. text }

abbrev file : String → Attachment
file path = record { path = path; name = ""; status = ""; reason = "" }

abbrev files : List Attachment
files = file "a.txt" ∷ file "b.txt" ∷ []

abbrev reply : ReplyCandidate
reply = record {
  message_id = "m1";
  conversation_id = "room-1";
  text = "hello";
  attachments = [];
  created_at = "";
}

told : (execute host config (some driver) reply []).1 ≡ "hello" ∷ []
unfolding execute deliver can_send send_reply_files strip lstrip rstrip is_space len send_each
    sendable_attachments
told = refl

execute-Permitted_example : Permitted config (some driver) reply
execute-Permitted_example = execute-Permitted host config (some driver) reply [] changed
  where
    changed : (execute host config (some driver) reply []).1 ≢ []
    changed e = cc (told, e)

combined_status-failed_example :
    combined_status (sent ∷ failed ∷ []) ≡ failed
    ↔ ((sent ∷ failed ∷ [] ≡ []) ⊎ (any (status_is failed) (sent ∷ failed ∷ []) ≡ true))
combined_status-failed_example = combined_status-failed (sent ∷ failed ∷ [])

all_sent : combined_status (sent ∷ sent ∷ []) ≡ sent
unfolding combined_status
all_sent = refl

combined_status-sent_example :
    (any (status_is failed) (sent ∷ sent ∷ []) ≡ false)
    × ((any (status_is queued_to_bridge) (sent ∷ sent ∷ []) ≡ false)
        × (any (status_is accepted) (sent ∷ sent ∷ []) ≡ false))
combined_status-sent_example = combined_status-sent (sent ∷ sent ∷ []) all_sent

send_each-paths_example : result_paths (send_each host send_file reply files []).0 ≡ paths files
send_each-paths_example = send_each-paths host send_file reply files []

send_each-deliverable_example :
    (send_each host send_file reply files []).1
    ≡ (send_each host send_file reply (keep (deliverable host) files) []).1
send_each-deliverable_example = send_each-deliverable host send_file reply files []
