-- ===== src/SendExecutor/Statuses.antt =====
-- What a combined status says of the parts (reply_gate/send_executor.py, `_combined_status`).
use chatbot_win.Prelude.{
  true, false, List, [], ◌∷◌, ◌≡◌, ◌≢◌, refl, ◌↔◌, ◌⊎◌, inl, inr, arith, any, all, Bool-cases,
}
use chatbot_win.Domain.{SendStatus, queued_to_bridge, accepted, sent, failed, status_is}
use chatbot_win.SendExecutor.Combine.{combined_status, last}

-- The last of statuses none of which failed.
last-failed :
    (s : SendStatus) (ss : List SendStatus)
    → any (status_is failed) (s ∷ ss) ≡ false
    → last s ss ≢ failed
last-failed s [] h e = cc (rw e at h)
last-failed s (t ∷ ss) h e = last-failed t ss (ground arith) e

remains :
    (s : SendStatus) (ss : List SendStatus)
    → any (status_is failed) (s ∷ ss) ≡ false
    → combined_status (s ∷ ss) ≢ failed
unfolding combined_status
remains s ss e = rw e (elim (Bool-cases (any (status_is queued_to_bridge) (s ∷ ss))) [
  | inl q ↦ rw q (λ h. cc)
  | inr q ↦ elim (Bool-cases (any (status_is accepted) (s ∷ ss))) [
    | inl a ↦ rw (q, a) (λ h. cc)
    | inr a ↦ elim (Bool-cases (all (status_is sent) (s ∷ ss))) [
      | inl b ↦ rw (q, a, b) (λ h. cc)
      | inr b ↦ rw (q, a, b) (last-failed s ss e)
    ]
  ]
])

-- The combined status is failed exactly when there is no part or one of the parts failed.
pub combined_status-failed :
    (ss : List SendStatus)
    → combined_status ss ≡ failed ↔ ((ss ≡ []) ⊎ (any (status_is failed) ss ≡ true))
unfolding combined_status
combined_status-failed [] = ((λ h. inl refl), λ h. refl)
combined_status-failed (s ∷ ss) = elim (Bool-cases (any (status_is failed) (s ∷ ss))) [
  | inl e ↦ ((λ h. inr e), λ h. rw e refl)
  | inr e ↦ ((λ h. absurd (remains s ss e h)), elim [ inl n ↦ cc | inr y ↦ cc ])
]

-- When the combined status is sent, no part failed, waits at the bridge or is merely accepted.
pub combined_status-sent :
    (ss : List SendStatus)
    → combined_status ss ≡ sent
    → (any (status_is failed) ss ≡ false)
      × ((any (status_is queued_to_bridge) ss ≡ false) × (any (status_is accepted) ss ≡ false))
unfolding combined_status
combined_status-sent [] h = cc
combined_status-sent (s ∷ ss) h = ground arith
