-- ===== src/Admission/Stranger.antt =====
-- The router over the rules of admission (router/router.py, conversation/channel_admission.py).
use chatbot_win.Prelude.{
  String, true, Option, none, some, [], ◌∷◌, ◌≡◌, ◌⊎◌, inl, inr, refl, Bool-cases,
}
use chatbot_win.Json.{Python}
use chatbot_win.Router.Deduper.{seen_any}
use chatbot_win.Router.Decide.{
  ConversationType, private, group, Message, Channels, State, existing_channel, register, decide,
  trusted_channel_source, untrusted_channel_source, message_dedupe_ids,
}
use chatbot_win.Admission.Rules.{
  BotConfig, Channel, conversation_identity_for_message, channel_admission_for_message,
}
use chatbot_win.Admission.Verdicts.{IsKnown, private_verdict-IsKnown}

-- The channel store that the router is given, with the rules of admission.
pub record Store (S : Type 0) : Type 0 where
  pub get_channel : String → S → Option Channel
  pub ensure_channel : Message → S → Channel × S

unfoldable pub channels_of : {S : Type 0} → Python → BotConfig → Store S → Channels S Channel
channels_of py config store = record {
  get_channel = store.get_channel;
  ensure_channel = store.ensure_channel;
  admission = channel_admission_for_message py config;
}

-- Why a channel may be registered: a group, or a known contact.
abbrev pub MayRegister : Python → BotConfig → Message → Option Channel → Type 0
MayRegister py config m existing =
    (m.conversation_type ≡ group)
    ⊎ IsKnown py config existing (conversation_identity_for_message py m) m.metadata
        (m.chat_title ∷ m.sender_name ∷ []) (m.chat_title ∷ m.sender_name ∷ [])

allowed-MayRegister :
    (py : Python) (config : BotConfig) (m : Message) (existing : Option Channel)
    → (channel_admission_for_message py config m existing).allowed ≡ true
    → MayRegister py config m existing
unfolding channel_admission_for_message conversation_identity_for_message
allowed-MayRegister py config m existing h = by_type m.conversation_type refl
  where
    by_type : (t : ConversationType) → m.conversation_type ≡ t → MayRegister py config m existing
    by_type group e = inl e
    by_type private e = inr (
        private_verdict-IsKnown py config existing (conversation_identity_for_message py m)
          m.metadata _ _ (rw e at h))

module _ {S : Type 0} (py : Python) (config : BotConfig) (store : Store S) where
  -- The store is as it was, or the message may register its channel.
  abbrev Guarded : Message → Option S → Option S → Type 0
  Guarded m before after =
      (after ≡ before)
      ⊎ ((trusted_channel_source m ≡ true)
          × MayRegister py config m (existing_channel (channels_of py config store) m before))

  register-Guarded :
      (m : Message) (channels : Option S)
      → Guarded m channels (register (channels_of py config store) m channels).1
  unfolding channels_of
  register-Guarded m none = inl refl
  register-Guarded m (some s) = elim (Bool-cases (trusted_channel_source m)) [
    | inr e ↦ inl (rw e refl)
    | inl e ↦
        elim (Bool-cases
          (channel_admission_for_message py config m
            (store.get_channel m.conversation_id s)).allowed) [
              | inr f ↦ inl (rw (e, f) refl)
              | inl f ↦
                  inr (e, allowed-MayRegister py config m (store.get_channel m.conversation_id s) f)
            ]
  ]

-- Whatever message the router decides on, over whatever store: the channels stay as they were, unless its
-- source is trusted and the message is from a group or from a contact whom none of the first hundred
-- dicts of its metadata calls a stranger, by a flag, a relation or a notice, and who is accepted by the
-- config, called a friend, or has a name that is not just an id.
pub decide-MayRegister :
    (S : Type 0) (py : Python) (config : BotConfig) (store : Store S) (m : Message) (s : State S)
    → ((decide (channels_of py config store) m s).1.channels ≡ s.channels)
      ⊎ ((trusted_channel_source m ≡ true)
          × MayRegister py config m (existing_channel (channels_of py config store) m s.channels))
unfolding decide
decide-MayRegister S py config store m s =
    elim (Bool-cases (seen_any (message_dedupe_ids m) s.deduper).0) [
      | inl e ↦ inl (rw e refl)
      | inr e ↦ elim (Bool-cases (untrusted_channel_source m)) [
        | inl f ↦ inl (rw (e, f) refl)
        | inr f ↦ rw (e, f) (register-Guarded py config store m s.channels)
      ]
    ]
