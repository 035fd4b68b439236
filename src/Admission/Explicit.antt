-- ===== src/Admission/Explicit.antt =====
-- What a payload says of the other person by itself (conversation/channel_admission.py).
use chatbot_win.Prelude.{
  String, Bool, false, not, ◌&&◌, ◌||◌, Option, none, some, List, [], ◌∷◌, any, mem, strip,
  nonempty, contains,
}
use chatbot_win.Json.{
  Value, nothing, truth, number, text, listed, dict, Entries, entry_of, Python, text_of, walk_dicts,
}

abbrev pub friend_keys : List String
friend_keys =
    "is_friend" ∷ "isFriend" ∷ "friend" ∷ "is_contact" ∷ "isContact" ∷ "contact" ∷ "in_contacts"
    ∷ "inContacts" ∷ "in_address_book" ∷ "inAddressBook" ∷ []

abbrev pub non_friend_true_keys : List String
non_friend_true_keys =
    "is_stranger" ∷ "isStranger" ∷ "stranger" ∷ "non_friend" ∷ "nonFriend" ∷ "is_non_friend"
    ∷ "isNonFriend" ∷ "temporary" ∷ "is_temporary" ∷ "isTemporary" ∷ []

abbrev pub relation_keys : List String
relation_keys =
    "relationship" ∷ "relation" ∷ "contact_status" ∷ "contactStatus" ∷ "friend_status"
    ∷ "friendStatus" ∷ "verifyFlag" ∷ "verify_flag" ∷ []

abbrev pub non_friend_values : List String
non_friend_values =
    "unknown" ∷ "stranger" ∷ "non_friend" ∷ "nonfriend" ∷ "not_friend" ∷ "temporary" ∷ "temp"
    ∷ "stranger_from_group" ∷ "group_only" ∷ []

abbrev friend_values : List String
friend_values = "friend" ∷ "contact" ∷ "contacts" ∷ "accepted" ∷ "verified" ∷ "known" ∷ []

abbrev pub non_friend_text_keys : List String
non_friend_text_keys =
    "banner" ∷ "notice" ∷ "tip" ∷ "hint" ∷ "subtitle" ∷ "description" ∷ "relation_text"
    ∷ "relationText" ∷ "relationship_text" ∷ "relationshipText" ∷ "friend_tip" ∷ "friendTip"
    ∷ "verify_content" ∷ "verifyContent" ∷ "status_text" ∷ "statusText" ∷ []

abbrev pub non_friend_text_markers : List String
non_friend_text_markers =
    "对方还不是你的朋友" ∷ "还不是你的朋友" ∷ "不是你的朋友" ∷ "not your friend" ∷ "not a friend" ∷ []

-- The texts that count as true
abbrev truthy_text : Python → Option Value → Bool
truthy_text py value =
    mem (py.lower (strip (text_of py value)))
      ("1" ∷ "true" ∷ "yes" ∷ "y" ∷ "on" ∷ "friend" ∷ "contact" ∷ "verified" ∷ [])

-- `_truthy`; a key that is missing counts as `None`, which is not true.
unfoldable pub truthy : Python → Option Value → Bool
truthy py (some (truth b)) = b
truthy py (some (number s nonzero)) = nonzero
truthy py none = false
truthy py (some nothing) = truthy_text py (some nothing)
truthy py (some (text s)) = truthy_text py (some (text s))
truthy py (some (listed items)) = truthy_text py (some (listed items))
truthy py (some (dict entries)) = truthy_text py (some (dict entries))

-- `item.get(key) is False`
abbrev pub is_false : Option Value → Bool
is_false (some (truth b)) = not b
is_false other = false

-- `str(item.get(key) or "").strip().lower()`
abbrev pub lowered : Python → String → Entries → String
lowered py key e = py.lower (strip (text_of py (entry_of key e)))

-- What one dict says.
unfoldable pub says_friend : Python → Entries → Bool
says_friend py e =
    any (λ key. truthy py (entry_of key e)) friend_keys
    || any (λ key. mem (lowered py key e) friend_values) relation_keys

unfoldable pub says_non_friend : Python → Entries → Bool
says_non_friend py e =
    any (λ key. truthy py (entry_of key e)) non_friend_true_keys
    || any (λ key. is_false (entry_of key e)) friend_keys
    || any (λ key. mem (lowered py key e) non_friend_values) relation_keys
    || any
        (λ key.
          nonempty (lowered py key e)
          && any (λ marker. contains marker (lowered py key e)) non_friend_text_markers)
        non_friend_text_keys

-- `_explicit_friend` and `_explicit_non_friend`
unfoldable pub explicit_friend : Python → Entries → Bool
explicit_friend py payload = any (says_friend py) (walk_dicts payload)

unfoldable pub explicit_non_friend : Python → Entries → Bool
explicit_non_friend py payload = any (says_non_friend py) (walk_dicts payload)
