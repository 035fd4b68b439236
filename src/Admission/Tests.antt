-- ===== src/Admission/Tests.antt =====
-- Concrete messages, and the theorem at one.
use chatbot_win.Prelude.{
  String, true, false, ◌&&◌, none, some, List, [], ◌∷◌, ◌≡◌, ◌⊎◌, refl, leb, nonempty, strip,
  lstrip, rstrip, is_space, contains, starts_with,
}
use chatbot_win.Json.{
  number, listed, dict, no_items, item, Entries, no_entries, entry, entry_of, Python, text_of,
  dicts_of, dicts_of_items, dicts_of_entries, walk_dicts,
}
use chatbot_win.Router.Deduper.{opened}
use chatbot_win.Router.Decide.{
  private, Message, State, existing_channel, decide, trusted_channel_source,
}
use chatbot_win.Admission.Explicit.{
  truthy, says_friend, says_non_friend, explicit_friend, explicit_non_friend,
}
use chatbot_win.Admission.Titles.{
  ends_with, qqim_rest, is_qqim, looks_like_placeholder, looks_like_mojibake_title,
  looks_like_private_wechat_receiver, looks_like_wechat_receiver, is_human_title,
  has_human_private_title,
}
use chatbot_win.Admission.Rules.{
  BotConfig, identity_accepted, channel_payload, existing_channel_identity, existing_channel_titles,
  conversation_identity_for_message, channel_admission_for_message,
}
use chatbot_win.Admission.Stranger.{Store, channels_of, MayRegister, decide-MayRegister}

abbrev py : Python
py = record {
  lower = λ s. s;
  printed = λ v. "[]";
  is_alnum = nonempty;
  is_digit = λ c. leb 48 c && leb c 57;
}

abbrev config : BotConfig
config = record { accepted_contacts = []; accepted_groups = [] }

abbrev message : String → Entries → Message
message title metadata = record {
  message_id = "m1";
  conversation_id = "c1";
  conversation_type = private;
  chat_title = title;
  sender_name = title;
  sender_wechat_id = "";
  metadata = metadata;
  source = "backend_events_jsonl";
  dedupe_key = "";
  trusted_channel_source = true;
}

-- A note deep in the metadata says that the sender is a stranger.
abbrev from_stranger : Entries
from_stranger =
    entry "raw" (listed (item (dict (entry "is_stranger" (number "1" true) no_entries)) no_items))
      no_entries

named_contact :
    (channel_admission_for_message py config (message "Ann" no_entries) none).allowed ≡ true
unfolding channel_admission_for_message conversation_identity_for_message text_of entry_of strip
    lstrip rstrip is_space explicit_non_friend walk_dicts dicts_of dicts_of_entries dicts_of_items
    says_non_friend identity_accepted existing_channel_titles existing_channel_identity
    explicit_friend says_friend channel_payload truthy looks_like_private_wechat_receiver
    starts_with is_qqim qqim_rest has_human_private_title is_human_title looks_like_placeholder
    looks_like_mojibake_title contains looks_like_wechat_receiver ends_with
named_contact = refl

stranger :
    (channel_admission_for_message py config (message "Ann" from_stranger) none).allowed ≡ false
unfolding channel_admission_for_message conversation_identity_for_message text_of entry_of strip
    lstrip rstrip is_space explicit_non_friend walk_dicts dicts_of dicts_of_entries dicts_of_items
    says_non_friend truthy
stranger = refl

-- A store that remembers the ids of its channels.
abbrev store : Store (List String)
store = record {
  get_channel = λ c ids. none;
  ensure_channel = λ m ids. (
    record {
      conversation_id = m.conversation_id;
      conversation_type = "private";
      chat_title = m.chat_title;
      sender_names = [];
      sender_wechat_ids = [];
      is_friend = false;
      conversation_key = "";
    },
    m.conversation_id ∷ ids,
  );
}

abbrev fresh : State (List String)
fresh = record { deduper = opened (some []); channels = some [] }

decide-MayRegister_example :
    ((decide (channels_of py config store) (message "Ann" no_entries) fresh).1.channels
      ≡ fresh.channels)
    ⊎ ((trusted_channel_source (message "Ann" no_entries) ≡ true)
        × MayRegister py config (message "Ann" no_entries) (
            existing_channel
              (channels_of py config store)
              (message "Ann" no_entries)
              fresh.channels))
decide-MayRegister_example =
    decide-MayRegister (List String) py config store (message "Ann" no_entries) fresh
