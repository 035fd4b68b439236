-- ===== src/ConfirmQueue/Contended.antt =====
-- A second claim of a record that a process holds (confirm_queue.py, `claim_approved_for_send`).
use chatbot_win.Prelude.{
  String, refl, none, ◌⊎◌, true, false, some, ◌≡◌, ap, arith, ◌∙◌, inl, inr, Bool-cases,
}
use chatbot_win.ConfirmQueue.Item.{
  approved, failed, Claim, Item, Env, active_send_claim, status_eq, send_claim_owner_is_alive,
}
use chatbot_win.ConfirmQueue.Store.{Queue, done, answer, write}
use chatbot_win.ConfirmQueue.Claims.{
  send_claim_conflict, send_claim_owner_exited, item_status_is, refusal, retire, claim_item,
  claim_edit, claim_approved_for_send,
}
use chatbot_win.ConfirmQueue.Review.{lookup}
use chatbot_win.ConfirmQueue.Rows.{IsValid}
use chatbot_win.ConfirmQueue.Moves.{claims, step, step-Steps, answer_of, result_of}
use chatbot_win.ConfirmQueue.AtMostOnce.{claim_approved_for_send_lem}

claim_edit-conflict :
    (env : Env) (owner : String) (x : Item) (c : Claim)
    → x.status ≡ approved
    → active_send_claim x ≡ some c
    → send_claim_owner_is_alive env c ≡ true
    → claim_edit env owner x ≡ answer (refusal send_claim_conflict x)
unfolding claim_edit claim_item status_eq
claim_edit-conflict env owner x c ok a alive = ground arith

claim_edit-expired :
    (env : Env) (owner : String) (x : Item) (c : Claim)
    → x.status ≡ approved
    → active_send_claim x ≡ some c
    → send_claim_owner_is_alive env c ≡ false
    → claim_edit env owner x
      ≡ write (retire env c x) (refusal send_claim_owner_exited (retire env c x))
unfolding claim_edit claim_item status_eq
claim_edit-expired env owner x c ok a dead = ground arith

-- `y` is the record `x` after its claim `c` was given up: a failed send whose outcome is unknown.
pub record GivenUp (env : Env) (c : Claim) (x y : Item) : Type 0 where
  pub status : y.status ≡ failed
  pub unclaimed : y.send_claim ≡ none
  pub resolved :
      y.last_send_claim
      ≡ some (record {
        claim = c;
        resolved_at = env.now;
        resolution = "send_claim_owner_exited_outcome_unknown";
      })
  pub reviewed_at : y.reviewed_at ≡ env.now
  pub reviewer : y.reviewer ≡ "system"
  pub note : y.note ≡ "send_claim_owner_exited_outcome_unknown"
  pub same_queue_id : y.queue_id ≡ x.queue_id
  pub same_created_at : y.created_at ≡ x.created_at
  pub same_reply : y.reply ≡ x.reply
  pub same_send_result : y.send_result ≡ x.send_result
  pub same_bridge_ids : y.bridge_ids ≡ x.bridge_ids
  pub same_bridge_acks : y.bridge_acks ≡ x.bridge_acks

GivenUp-retire : (env : Env) (c : Claim) (x : Item) → GivenUp env c x (retire env c x)
unfolding retire
GivenUp-retire env c x = record {
  status = refl;
  unclaimed = refl;
  resolved = refl;
  reviewed_at = refl;
  reviewer = refl;
  note = refl;
  same_queue_id = refl;
  same_created_at = refl;
  same_reply = refl;
  same_send_result = refl;
  same_bridge_ids = refl;
  same_bridge_acks = refl;
}

claim_edit-failed :
    (env : Env) (owner : String) (x : Item)
    → x.status ≡ failed
    → claim_edit env owner x ≡ answer (refusal (item_status_is failed) x)
unfolding claim_edit status_eq
claim_edit-failed env owner x h = rw h refl

claim_approved_for_send-failed :
    (env : Env) (owner k : String) (x : Item) (q : Queue)
    → IsValid q
    → lookup k q ≡ some x
    → x.status ≡ failed
    → (claim_approved_for_send env owner k q).1 ≡ done (refusal (item_status_is failed) x)
claim_approved_for_send-failed env owner k x q v h f =
    (claim_approved_for_send_lem env owner k x q v h).0
    ∙ ap answer_of (claim_edit-failed env owner x f)

-- A claim of an approved record that a process holds, in a valid queue, is refused. While the holder
-- lives it is a conflict, and the record stays as it is. Where the holder has exited, the record that
-- the refusal answers now stands there: failed, with no claim, the holder's claim resolved now as of
-- unknown outcome, its reply and its send result as they were; and any process's next claim of it is
-- refused because it is failed.
pub claim-held :
    (env env' : Env) (owner owner' k : String) (x : Item) (c : Claim) (q : Queue)
    → IsValid q
    → lookup k q ≡ some x
    → x.status ≡ approved
    → active_send_claim x ≡ some c
    → (y : Item) × (lookup k (claim_approved_for_send env owner k q).0 ≡ some y)
      × (((send_claim_owner_is_alive env c ≡ true)
            × ((claim_approved_for_send env owner k q).1 ≡ done (refusal send_claim_conflict x))
            × (y ≡ x))
          ⊎ ((send_claim_owner_is_alive env c ≡ false)
              × ((claim_approved_for_send env owner k q).1
                  ≡ done (refusal send_claim_owner_exited y))
              × GivenUp env c x y
              × ((claim_approved_for_send env' owner' k (claim_approved_for_send env owner k q).0).1
                  ≡ done (refusal (item_status_is failed) y))))
claim-held env env' owner owner' k x c q v h ok a =
    let (ans, found) = claim_approved_for_send_lem env owner k x q v h in
    let q1 = (claim_approved_for_send env owner k q).0 in
    let v1 : IsValid q1 = unfold step in (step-Steps env (claims owner k) q v).1 in
    elim (Bool-cases (send_claim_owner_is_alive env c)) [
      | inl alive ↦
          let e = claim_edit-conflict env owner x c ok a alive in
          (x, found ∙ ap (λ d. some (result_of x d)) e, inl (alive, ans ∙ ap answer_of e, refl))
      | inr dead ↦
          let e = claim_edit-expired env owner x c ok a dead in
          let there = found ∙ ap (λ d. some (result_of x d)) e in
          let given_up = GivenUp-retire env c x in
          (
            retire env c x,
            there,
            inr (
              dead,
              ans ∙ ap answer_of e,
              given_up,
              claim_approved_for_send-failed env' owner' k (retire env c x) q1 v1 there
                  given_up.status,
            ),
          )
    ]
