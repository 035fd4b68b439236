-- ===== src/ReplyGate/Tests.antt =====
-- The reply gate on a concrete reply, and its theorem applied to it.
use chatbot_win.Prelude.{
  String, true, false, none, some, List, [], ◌∷◌, ◌≡◌, ◌≢◌, refl, strip, lstrip, rstrip, is_space,
  len,
}
use chatbot_win.Domain.{auto, sent, ReplyCandidate}
use chatbot_win.ConfirmQueue.Item.{Env}
use chatbot_win.SendExecutor.Guards.{Driver, can_send}
use chatbot_win.SendExecutor.Execute.{execute, deliver, send_reply_files}
use chatbot_win.SendExecutor.Permitted.{Permitted}
use chatbot_win.ReplyGate.{Executor, Gate, World, handle, handle-auto}

abbrev env : Env
env = record {
  now = "";
  pid = 1;
  token = "c0ffee";
  process_pid_alive = λ pid. true;
  process_start_marker = λ pid. "";
  projection_writable = true;
}

-- A driver without files, which writes down the texts.
abbrev driver : Driver (List String)
driver = record {
  send_message = λ conversation text told. (
    record {
      message_id = "";
      conversation_id = conversation;
      status = sent;
      reason = "";
      sent_at = "";
      details = none;
    },
    text ∷ told,
  );
  send_file = none;
}

abbrev executor : Executor (List String)
executor = record {
  host = record { exists = λ path. true; path_name = λ path. path; lower = λ text. text };
  config = record {
    send_enabled = true;
    send_driver = "bridge";
    send_confirm_required = false;
    send_max_chars = 100;
  };
  driver = some driver;
}

abbrev gate : Gate (List String)
gate = record { mode = auto; auto_executor = some executor }

abbrev reply : ReplyCandidate
reply = record {
  message_id = "m1";
  conversation_id = "room-1";
  text = "hello";
  attachments = [];
  created_at = "";
}

abbrev quiet : World (List String)
quiet = record { confirm_queue = none; outside = [] }

told_once : (handle gate env reply quiet).1.outside ≡ "hello" ∷ []
unfolding handle execute deliver can_send send_reply_files strip lstrip rstrip is_space len
told_once = refl

handle-auto_example :
    (gate.mode ≡ auto)
    × ((e : Executor (List String)) × ((gate.auto_executor ≡ some e)
          × Permitted e.config e.driver reply))
handle-auto_example = handle-auto gate env reply quiet changed
  where
    changed : (handle gate env reply quiet).1.outside ≢ []
    changed e = cc (told_once, e)
