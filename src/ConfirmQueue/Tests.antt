-- ===== src/ConfirmQueue/Tests.antt =====
-- Concrete runs of the confirmation queue, and its theorems at concrete inputs.
use chatbot_win.Prelude.{
  String, true, false, none, some, List, [], ◌∷◌, ◌≡◌, ◌⊎◌, refl, nonempty, strip, nat_eq,
}
use chatbot_win.Domain.{ReplyCandidate}
use chatbot_win.ConfirmQueue.Item.{
  status_eq, approved, rejected, sent, failed, Item, Claim, Env, active_send_claim,
  send_claim_owner_is_alive,
}
use chatbot_win.ConfirmQueue.Store.{
  conclude, edit_first, Queue, done, raised, read_all, claim_conflict,
}
use chatbot_win.ConfirmQueue.Rows.{row_of, IsValid}
use chatbot_win.ConfirmQueue.Claims.{
  claim_edit, claim_item, refusal, send_claim_conflict, send_claim_owner_exited, item_status_is,
  require_send_claim, claim_approved_for_send, new_claim,
}
use chatbot_win.ConfirmQueue.Review.{Review, lookup, transition, transition_edit, fenced}
use chatbot_win.ConfirmQueue.Retry.{requeue_bridge_result}
use chatbot_win.ConfirmQueue.Moves.{Call, claims, marks, step, run, run-IsValid}
use chatbot_win.ConfirmQueue.Safety.{status-step, rejected-final, Edge}
use chatbot_win.ConfirmQueue.AtMostOnce.{at_most_one_claim, IsClaimed}
use chatbot_win.ConfirmQueue.Contended.{claim-held, GivenUp}
use chatbot_win.ConfirmQueue.Resent
use chatbot_win.ConfirmQueue.Resent.{requeue_bridge_result_lem}

-- Process 7 at noon; processes 7 and 8 live.
abbrev env : Env
env = record {
  now = "2026-07-11T12:00:00+00:00";
  pid = 7;
  token = "c0ffee";
  process_pid_alive = λ pid. nat_eq pid 7;
  process_start_marker = λ pid. "boot";
  projection_writable = true;
}

abbrev later_env : Env
later_env = record env { pid = 8; token = "beef"; now = "2026-07-11T12:00:05+00:00" }

abbrev hello : ReplyCandidate
hello = record {
  message_id = "m1";
  conversation_id = "c1";
  text = "hello";
  attachments = [];
  created_at = "2026-07-11T11:00:00+00:00";
}

abbrev id : String
id = "m1:2026-07-11T11:00:00+00:00"

abbrev waiting : Item
waiting = record {
  queue_id = id;
  status = approved;
  created_at = "2026-07-11T11:00:01+00:00";
  reviewed_at = "2026-07-11T11:30:00+00:00";
  reviewer = "local_user";
  note = "";
  reply = hello;
  send_claim = none;
  last_send_claim = none;
  retry_of = "";
  bridge_ids = [];
  bridge_acks = [];
  last_bridge_ack = none;
  send_result = none;
}

abbrev queue_of : Item → Queue
queue_of x = record { rows = row_of x ∷ []; projection = [] }

queue_of-IsValid : (x : Item) → x.queue_id ≡ id → IsValid (queue_of x)
unfolding read_all strip
queue_of-IsValid x e = record { keyed = rw e ((refl, refl, tt), (refl, tt)); rows_match = refl }

abbrev theirs : Claim
theirs = new_claim env ""

abbrev taken_item : Item
taken_item = record waiting { send_claim = some theirs }

-- The holder reports that the message was sent, while another process tries to claim it again.
abbrev history : List (Env × Call)
history =
    (later_env, claims "" id)
    ∷ (
      env,
      marks id (record { status = sent; reviewer = "local_user"; note = "ok"; extra = none })
          "c0ffee",
    )
    ∷ []

waiting_found : lookup id (queue_of waiting) ≡ some waiting
unfolding lookup read_all
waiting_found = refl

first_claim : IsClaimed (claim_approved_for_send env "" id (queue_of waiting)).1
unfolding claim_approved_for_send read_all strip conclude edit_first claim_edit status_eq claim_item
    active_send_claim
first_claim = refl

plain_token : nonempty (strip env.token) ≡ true
unfolding strip
plain_token = refl

at_most_one_claim_example :
    ¬ IsClaimed
      (claim_approved_for_send later_env "" id
        (run history (claim_approved_for_send env "" id (queue_of waiting)).0)).1
at_most_one_claim_example =
    at_most_one_claim env later_env "" "" id waiting (queue_of waiting) history
      (queue_of-IsValid waiting refl) waiting_found plain_token first_claim
      ((λ b. b), ((λ b. b), tt)) ((λ b. b), ((λ b. b), tt))

taken_found : lookup id (queue_of taken_item) ≡ some taken_item
unfolding lookup read_all
taken_found = refl

taken_active : active_send_claim taken_item ≡ some theirs
unfolding active_send_claim strip
taken_active = refl

claim-held_example :
    (y : Item) × (lookup id (claim_approved_for_send later_env "" id (queue_of taken_item)).0
      ≡ some y)
    × (((send_claim_owner_is_alive later_env theirs ≡ true)
          × ((claim_approved_for_send later_env "" id (queue_of taken_item)).1
              ≡ done (refusal send_claim_conflict taken_item))
          × (y ≡ taken_item))
        ⊎ ((send_claim_owner_is_alive later_env theirs ≡ false)
            × ((claim_approved_for_send later_env "" id (queue_of taken_item)).1
                ≡ done (refusal send_claim_owner_exited y))
            × GivenUp later_env theirs taken_item y
            × ((claim_approved_for_send env "" id
                  (claim_approved_for_send later_env "" id (queue_of taken_item)).0).1
                ≡ done (refusal (item_status_is failed) y))))
claim-held_example =
    claim-held later_env env "" "" id taken_item theirs (queue_of taken_item)
      (queue_of-IsValid taken_item refl) taken_found refl taken_active

abbrev delivered : Review
delivered = record { status = sent; reviewer = "local_user"; note = "ok"; extra = none }

-- The wrong token is refused.
wrong_token : (transition env id delivered "beef" (queue_of taken_item)).1 ≡ raised claim_conflict
unfolding transition conclude edit_first transition_edit fenced require_send_claim active_send_claim
    read_all strip
wrong_token = refl

status-step_example :
    (y : Item) × (lookup id (step env (marks id delivered "c0ffee") (queue_of taken_item)) ≡ some y)
    × Edge approved y.status
status-step_example =
    status-step env (marks id delivered "c0ffee") id taken_item (queue_of taken_item)
      (queue_of-IsValid taken_item refl) (λ b. b) taken_found

abbrev refused_item : Item
refused_item = record waiting { status = rejected }

refused_found : lookup id (queue_of refused_item) ≡ some refused_item
unfolding lookup read_all
refused_found = refl

rejected-final_example :
    (y : Item) × (lookup id (run history (queue_of refused_item)) ≡ some y) × (y.status ≡ rejected)
rejected-final_example =
    rejected-final history id refused_item (queue_of refused_item)
      (queue_of-IsValid refused_item refl) ((λ b. b), ((λ b. b), tt)) refused_found refl

run-IsValid_example : IsValid (run history (queue_of waiting))
run-IsValid_example = run-IsValid history (queue_of waiting) (queue_of-IsValid waiting refl)

-- A send whose bridge message failed to arrive.
abbrev over_bridge : Item
over_bridge = record waiting { status = failed; bridge_ids = "bridge:1" ∷ [] }

requeue_bridge_result_lem_example :
    Resent.RetryEnd env "bridge:1" "bridge:2" "local_user" []
      (queue_of over_bridge)
      (requeue_bridge_result env "bridge:1" "bridge:2" "" "local_user" [] (queue_of over_bridge)).1
      (requeue_bridge_result env "bridge:1" "bridge:2" "" "local_user" [] (queue_of over_bridge)).0
requeue_bridge_result_lem_example =
    requeue_bridge_result_lem env "bridge:1" "bridge:2" "" "local_user" [] (queue_of over_bridge)
      (queue_of-IsValid over_bridge refl)
