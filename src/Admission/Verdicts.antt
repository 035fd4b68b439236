-- ===== src/Admission/Verdicts.antt =====
-- Whom the rules admit (conversation/channel_admission.py).
use chatbot_win.Prelude.{
  String, true, false, ◌||◌, Option, List, [], ◌∷◌, ◌++◌, ◌≡◌, inl, inr, arith, Bool-cases,
}
use chatbot_win.Json.{Entries, Python}
use chatbot_win.Admission.Explicit.{explicit_friend, explicit_non_friend}
use chatbot_win.Admission.Unmarked.{AllUnmarked, explicit_non_friend-AllUnmarked}
use chatbot_win.Admission.Titles.{looks_like_private_wechat_receiver, has_human_private_title}
use chatbot_win.Admission.Rules.{
  BotConfig, Channel, identity_accepted, channel_payload, existing_channel_identity,
  existing_channel_titles, private_verdict,
}

-- Why a contact may be let in: the first hundred dicts of the payload call nobody a stranger, and the
-- config names it, or the payload or its channel calls it a friend, or it has a name that is not just an id.
pub data IsKnown (py : Python) (config : BotConfig) (existing : Option Channel) (identity : String)
    (payload : Entries) (names titles : List String) : Type 0 where
  accepted :
      AllUnmarked py payload
      → identity_accepted config.accepted_contacts (
          identity
          ∷ (names
              ++ (existing_channel_titles existing ++ (existing_channel_identity existing ∷ []))))
        ≡ true
      → IsKnown py config existing identity payload names titles
  a_friend :
      AllUnmarked py payload
      → (explicit_friend py payload || explicit_friend py (channel_payload existing)) ≡ true
      → IsKnown py config existing identity payload names titles
  named :
      AllUnmarked py payload
      → looks_like_private_wechat_receiver py identity ≡ false
      → has_human_private_title py (titles ++ existing_channel_titles existing) identity ≡ true
      → IsKnown py config existing identity payload names titles

pub private_verdict-IsKnown :
    (py : Python) (config : BotConfig) (existing : Option Channel) (identity : String)
    (payload : Entries) (names titles : List String)
    → (private_verdict py config existing identity payload names titles).allowed ≡ true
    → IsKnown py config existing identity payload names titles
private_verdict-IsKnown py config existing identity payload names titles h =
    elim (Bool-cases (explicit_non_friend py payload)) [
      | inl a ↦ absurd (ground (arith, rw a at h))
      | inr a ↦
          elim (Bool-cases (
            identity_accepted config.accepted_contacts (
              identity
              ∷ (names
                  ++ (existing_channel_titles existing
                      ++ (existing_channel_identity existing ∷ [])))))) [
                        | inl b ↦ accepted (explicit_non_friend-AllUnmarked py payload a) b
                        | inr b ↦
                            elim (Bool-cases (
                              explicit_friend py payload
                              || explicit_friend py (channel_payload existing))) [
                                | inl c ↦ a_friend (explicit_non_friend-AllUnmarked py payload a) c
                                | inr c ↦ unfriended a b c
                              ]
                      ]
    ]
  where
    unfriended :
        explicit_non_friend py payload ≡ false
        → identity_accepted config.accepted_contacts (
            identity
            ∷ (names
                ++ (existing_channel_titles existing ++ (existing_channel_identity existing ∷ []))))
          ≡ false
        → (explicit_friend py payload || explicit_friend py (channel_payload existing)) ≡ false
        → IsKnown py config existing identity payload names titles
    unfriended a b c = elim (Bool-cases (looks_like_private_wechat_receiver py identity)) [
      | inl d ↦ absurd (ground (arith, rw (a, b, c, d) at h))
      | inr d ↦
          elim (Bool-cases
            (has_human_private_title py (titles ++ existing_channel_titles existing) identity)) [
              | inl e ↦ named (explicit_non_friend-AllUnmarked py payload a) d e
              | inr e ↦ absurd (ground (arith, rw (a, b, c, d, e) at h))
            ]
    ]
