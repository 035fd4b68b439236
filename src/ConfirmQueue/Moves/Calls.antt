-- ===== src/ConfirmQueue/Moves/Calls.antt =====
-- A call of the queue, by any process at any time, and what it leaves behind (confirm_queue.py).
-- `approve` and `reject` are `reviews`; the environment is that of the calling process.
use chatbot_win.Prelude.{String, Bool, strip, nonempty, true, Option, List, [], ◌∷◌, ◌≡◌, some}
use chatbot_win.Domain.{ReplyCandidate}
use chatbot_win.ConfirmQueue.Item.{Item, Env}
use chatbot_win.ConfirmQueue.Store.{Queue}
use chatbot_win.ConfirmQueue.Claims.{claim_approved_for_send, release_send_claim}
use chatbot_win.ConfirmQueue.Review.{
  Review, enqueue, queue_id_of, transition, mark_send_result, remove,
}
use chatbot_win.ConfirmQueue.Bridge.{update_referencing_bridge}
use chatbot_win.ConfirmQueue.Retry.{requeue_bridge_result}

-- A callback of `update_referencing_bridge` that leaves the id and the claim of the record alone.
abbrev pub Leaves : (Item → Option Item) → Type 0
Leaves updater =
    (x y : Item) → updater x ≡ some y → (y.queue_id ≡ x.queue_id) × (y.send_claim ≡ x.send_claim)

-- The id of the new record is not blank and has no outer spaces, as the normalizer's hashes have not.
abbrev pub HasPlainId : ReplyCandidate → Type 0
HasPlainId reply =
    (strip (queue_id_of reply) ≡ queue_id_of reply) × (nonempty (queue_id_of reply) ≡ true)

pub data Call : Type 0 where
  enqueues : (reply : ReplyCandidate) → HasPlainId reply → Call
  claims : String → String → Call
  releases : String → String → String → Call
  reviews : String → Review → Call
  marks : String → Review → String → Call
  removes : String → Call
  requeues : String → String → String → String → List String → Call
  updates : (Item → Item → Bool) → String → (updater : Item → Option Item) → Leaves updater → Call

unfoldable pub step : Env → Call → Queue → Queue
step env (enqueues reply plain) q = (enqueue env reply q).0
step env (claims owner queue_id) q = (claim_approved_for_send env owner queue_id q).0
step env (releases queue_id token reason) q = (release_send_claim env queue_id token reason q).0
step env (reviews queue_id review) q = (transition env queue_id review "" q).0
step env (marks queue_id review token) q = (mark_send_result env queue_id review token q).0
step env (removes queue_id) q = (remove env queue_id q).0
step env (requeues old new reason reviewer others) q =
    (requeue_bridge_result env old new reason reviewer others q).0
step env (updates same bridge_id updater leaves) q =
    (update_referencing_bridge env same bridge_id updater q).0

unfoldable pub run : List (Env × Call) → Queue → Queue
unfolding step
run [] q = q
run ((env, call) ∷ calls) q = run calls (step env call q)
