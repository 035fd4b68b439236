-- ===== src/Admission/Rules.antt =====
-- The admission of messages, sessions and stored channels (conversation/channel_admission.py).
use chatbot_win.Prelude.{
  String, Bool, true, false, not, ◌&&◌, ◌||◌, Option, none, some, List, [], ◌∷◌, ◌++◌, any, mem,
  strip, nonempty, or_else, is_some, ◌==◌, if◌then◌else◌, unique, keep,
}
use chatbot_win.Json.{
  Value, nothing, truth, number, text, listed, dict, Items, no_items, item, Entries, no_entries,
  entry, entry_of, Python, text_of,
}
use chatbot_win.Router.Decide.{ConversationType, private, group, Message, Admission}
use chatbot_win.Admission.Explicit.{explicit_friend, explicit_non_friend}
use chatbot_win.Admission.Titles.{
  ends_with, looks_like_private_wechat_receiver, has_human_private_title,
}

-- What the rules read of `BotConfig`, and of `ConversationChannel`.
pub record BotConfig : Type 0 where
  pub accepted_contacts : List String
  pub accepted_groups : List String

pub record Channel : Type 0 where
  pub conversation_id : String
  pub conversation_type : String
  pub chat_title : String
  pub sender_names : List String
  pub sender_wechat_ids : List String
  pub is_friend : Bool
  pub conversation_key : String

abbrev stripped : List String → List String
stripped [] = []
stripped (x ∷ xs) = strip x ∷ stripped xs

abbrev pub cleaned : List String → List String
cleaned xs = keep nonempty (stripped xs)

-- `_identity_accepted`, with the identity among the aliases
unfoldable pub identity_accepted : List String → List String → Bool
identity_accepted accepted names = any (λ name. mem name (cleaned accepted)) (cleaned names)

abbrev items : List String → Items
items [] = no_items
items (x ∷ xs) = item (text x) (items xs)

-- `_channel_payload` of a stored channel: the names it asks for that the class has.
unfoldable pub channel_payload : Option Channel → Entries
channel_payload none = no_entries
channel_payload (some c) = entry "conversation_type" (text c.conversation_type) (
    entry "chat_title" (text c.chat_title) (
      entry "sender_names" (listed (items c.sender_names)) (
        entry "sender_wechat_ids" (listed (items c.sender_wechat_ids)) (
          entry "conversation_key" (text c.conversation_key) (
            entry "conversation_id" (text c.conversation_id)
              (entry "is_friend" (truth c.is_friend) no_entries))))))

abbrev first_of : List String → String
first_of [] = ""
first_of (x ∷ xs) = x

-- `_existing_channel_identity`
unfoldable pub existing_channel_identity : Option Channel → String
existing_channel_identity none = ""
existing_channel_identity (some c) =
    first_of (cleaned (c.conversation_key ∷ (c.sender_wechat_ids ++ (c.conversation_id ∷ []))))

-- `_existing_channel_titles`
unfoldable pub existing_channel_titles : Option Channel → List String
existing_channel_titles none = []
existing_channel_titles (some c) = unique (cleaned (c.chat_title ∷ c.sender_names))

-- `conversation_identity_for_message`
unfoldable pub conversation_identity_for_message : Python → Message → String
conversation_identity_for_message py m =
    let keyed = first_of (
      cleaned (
        text_of py (entry_of "conversation_key" m.metadata)
        ∷ text_of py (entry_of "conversationKey" m.metadata)
        ∷ text_of py (entry_of "talker_id" m.metadata)
        ∷ text_of py (entry_of "talkerId" m.metadata)
        ∷ text_of py (entry_of "talker" m.metadata)
        ∷ [])) in
    if nonempty keyed
    then keyed
    else strip (or_else m.sender_wechat_id (or_else m.chat_title m.conversation_id))

abbrev verdict : Bool → String → String → Admission
verdict allowed reason identity = record { allowed = allowed; reason = reason; identity = identity }

abbrev group_verdict : Bool → Bool → String → Admission
group_verdict accepted existing identity =
    if accepted
    then verdict true "accepted_group" identity
    else verdict true (if existing then "existing_group_channel" else "group_auto_channel") identity

-- The part that messages and sessions of single contacts share: `payload` is searched for what it says
-- of the contact, `names` are compared with the accepted contacts, `titles` must hold a name.
abbrev pub private_verdict :
    Python → BotConfig → Option Channel → String → Entries → List String → List String → Admission
private_verdict py config existing identity payload names titles =
    if explicit_non_friend py payload
    then verdict false "private_contact_explicitly_not_friend" identity
    else if identity_accepted config.accepted_contacts (
        identity
        ∷ (names
            ++ (existing_channel_titles existing ++ (existing_channel_identity existing ∷ []))))
    then verdict true "accepted_private_contact" identity
    else if explicit_friend py payload || explicit_friend py (channel_payload existing)
    then verdict true "private_contact_verified" identity
    else if looks_like_private_wechat_receiver py identity
    then verdict false "private_contact_unknown_or_unidentified" identity
    else if has_human_private_title py (titles ++ existing_channel_titles existing) identity
    then verdict true
        (if is_some existing
          then "existing_private_channel_identified"
          else "private_display_name_present")
        identity
    else verdict false "private_contact_unknown_or_unidentified" identity

abbrev admission_of_type :
    ConversationType → Python → BotConfig → Message → Option Channel → String → Admission
admission_of_type group py config m existing identity =
    group_verdict (identity_accepted config.accepted_groups (identity ∷ m.chat_title ∷ []))
      (is_some existing) identity
admission_of_type private py config m existing identity =
    private_verdict py config existing identity m.metadata (m.chat_title ∷ m.sender_name ∷ [])
      (m.chat_title ∷ m.sender_name ∷ [])

-- `channel_admission_for_message`
unfoldable pub channel_admission_for_message :
    Python → BotConfig → Message → Option Channel → Admission
channel_admission_for_message py config m existing =
    admission_of_type m.conversation_type py config m existing
      (conversation_identity_for_message py m)

-- `_first_text`
abbrev first_text_or : Option Value → String → String
first_text_or (some (text s)) rest = if nonempty (strip s) then strip s else rest
first_text_or (some (number s nonzero)) rest = s
first_text_or (some (truth b)) rest = if b then "True" else "False"
first_text_or none rest = rest
first_text_or (some nothing) rest = rest
first_text_or (some (listed values)) rest = rest
first_text_or (some (dict payload)) rest = rest

unfoldable pub first_text : Entries → List String → String
first_text payload [] = ""
first_text payload (key ∷ keys) = first_text_or (entry_of key payload) (first_text payload keys)

-- `channel_admission_for_session`
unfoldable pub channel_admission_for_session :
    Python → BotConfig → Entries → Option Channel → Admission
channel_admission_for_session py config session existing =
    let session_id =
      first_text session ("id" ∷ "username" ∷ "talker" ∷ "sessionId" ∷ "session_id" ∷ []) in
    let session_type = first_text session ("type" ∷ "sessionType" ∷ "session_type" ∷ []) in
    let name = first_text session ("name" ∷ "displayName" ∷ "remark" ∷ []) in
    if mem session_type ("group" ∷ "2" ∷ []) || ends_with "@chatroom" session_id
    then group_verdict (identity_accepted config.accepted_groups (session_id ∷ name ∷ []))
        (is_some existing) session_id
    else private_verdict py config existing session_id session (name ∷ []) (
        first_text session ("remark" ∷ "remarkName" ∷ [])
        ∷ first_text session ("displayName" ∷ "display_name" ∷ [])
        ∷ first_text session ("nickName" ∷ "nickname" ∷ [])
        ∷ first_text session ("name" ∷ [])
        ∷ [])

-- `channel_allows_private_receiver` of a stored channel, under a config
unfoldable pub channel_allows_private_receiver : Python → BotConfig → Option Channel → Bool
channel_allows_private_receiver py config none = false
channel_allows_private_receiver py config (some c) =
    if nonempty (strip c.conversation_type) && not (strip c.conversation_type == "private")
    then true
    else if identity_accepted config.accepted_contacts
        (existing_channel_identity (some c) ∷ existing_channel_titles (some c))
    then true
    else not (looks_like_private_wechat_receiver py (existing_channel_identity (some c)))
      && has_human_private_title py (existing_channel_titles (some c))
          (existing_channel_identity (some c))
