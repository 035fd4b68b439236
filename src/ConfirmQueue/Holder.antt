-- ===== src/ConfirmQueue/Holder.antt =====
-- Reviews and send results of one record (confirm_queue.py, `_transition`): who may write them, and what
-- they leave.
use chatbot_win.Prelude.{
  List, [], ◌∷◌, ◌⊎◌, true, false, String, Bool, not, ◌&&◌, Option, none, some, ◌≡◌, ◌==◌, nonempty,
}
use chatbot_win.ConfirmQueue.Item.{
  Status, status_text, Claim, Item, Env, active_send_claim, validate_transition,
}
use chatbot_win.ConfirmQueue.Store.{Outcome, done, raised, claim_conflict, value_error}
use chatbot_win.ConfirmQueue.Review.{Extra, Review}

-- The claim, if there is one, is held by whoever shows the token; without one no token may be shown.
abbrev pub may_write : Option Claim → String → Bool
may_write none token = not (nonempty token)
may_write (some claim) token = nonempty token && token == claim.token

-- How the claim stands after the review: used up if it was active, else as it was.
abbrev pub Used : Env → Status → Option Claim → Item → Item → Type 0
Used env status none x y = (y.send_claim ≡ x.send_claim) × (y.last_send_claim ≡ x.last_send_claim)
Used env status (some c) x y =
    (y.send_claim ≡ none)
    × (y.last_send_claim
        ≡ some (record { claim = c; resolved_at = env.now; resolution = status_text status }))

-- The bridge ids that the review hands over, with no acks yet, or those of before where it has none.
abbrev pub Bridged : List String → Item → Item → Type 0
Bridged [] x y = (y.bridge_ids ≡ x.bridge_ids) × (y.bridge_acks ≡ x.bridge_acks)
Bridged (id ∷ ids) x y = (y.bridge_ids ≡ id ∷ ids) × (y.bridge_acks ≡ [])

abbrev pub Carried : Option Extra → Item → Item → Type 0
Carried none x y = (y.send_result ≡ x.send_result) × Bridged [] x y
Carried (some e) x y = (y.send_result ≡ some e.send_result) × Bridged e.bridge_ids x y

-- `y` is `x` with the review written on it.
pub record Written (env : Env) (r : Review) (x y : Item) : Type 0 where
  pub status : y.status ≡ r.status
  pub reviewer : y.reviewer ≡ r.reviewer
  pub note : y.note ≡ r.note
  pub reviewed_at : y.reviewed_at ≡ env.now
  pub used : Used env r.status (active_send_claim x) x y
  pub carried : Carried r.extra x y
  pub same_queue_id : y.queue_id ≡ x.queue_id
  pub same_created_at : y.created_at ≡ x.created_at
  pub same_reply : y.reply ≡ x.reply
  pub same_retry_of : y.retry_of ≡ x.retry_of
  pub same_bridge_ack : y.last_bridge_ack ≡ x.last_bridge_ack

-- How the call ended, and the record `y` that it left in place of `x`.
abbrev pub ReviewEnd : Env → Review → String → Item → Outcome Item → Item → Type 0
ReviewEnd env r token x ended y =
    ((may_write (active_send_claim x) token ≡ false) × (ended ≡ raised claim_conflict) × (y ≡ x))
    ⊎ ((may_write (active_send_claim x) token ≡ true)
        × (validate_transition x.status r.status ≡ false)
        × (ended ≡ raised value_error)
        × (y ≡ x))
    ⊎ ((may_write (active_send_claim x) token ≡ true)
        × (validate_transition x.status r.status ≡ true)
        × (ended ≡ done y)
        × Written env r x y)
