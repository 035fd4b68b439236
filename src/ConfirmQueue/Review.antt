-- ===== src/ConfirmQueue/Review.antt =====
-- The reviewer's and the sender's operations on one record (confirm_queue.py): `enqueue`, `approve`,
-- `reject`, `mark_send_result`, `remove`, and the queries.
use Prim.Native.String
use chatbot_win.Prelude.{
  String, Bool, true, false, ◌||◌, Option, none, some, List, [], ◌∷◌, if◌then◌else◌, nonempty, find,
  keep,
}
use chatbot_win.Domain.{ReplyCandidate}
use chatbot_win.ConfirmQueue.Item.{
  Status, status_text, pending, approved, rejected, queued_to_bridge, sent, accepted, failed, Item,
  SendPayload, Claim, Env, active_send_claim, validate_transition, status_eq,
}
use chatbot_win.ConfirmQueue.Store.{
  Queue, Outcome, raised, key_error, claim_conflict, value_error, Edit, refuse, write, Scan,
  missing, refused, written, behind, read_all, append_row, refresh_projection, edit_first, conclude,
  has_id,
}
use chatbot_win.ConfirmQueue.Claims.{resolve, require_send_claim}

-- `f"{reply.message_id}:{reply.created_at}"` stands in `queue_id`, which the caller computes.
unfoldable pub new_item : Env → String → ReplyCandidate → Item
new_item env queue_id reply = record {
  queue_id = queue_id;
  status = pending;
  created_at = env.now;
  reviewed_at = "";
  reviewer = "";
  note = "";
  reply = reply;
  send_claim = none;
  last_send_claim = none;
  retry_of = "";
  bridge_ids = [];
  bridge_acks = [];
  last_bridge_ack = none;
  send_result = none;
}

unfoldable pub with_row : Env → Item → Queue → Queue
unfolding append_row refresh_projection read_all
with_row env item q =
    let grown = record q { rows = append_row item q.rows } in
    refresh_projection env (read_all grown) grown

unfoldable pub queue_id_of : ReplyCandidate → String
queue_id_of reply = String.◌++◌ reply.message_id (String.◌++◌ ":" reply.created_at)

unfoldable pub enqueue : Env → ReplyCandidate → Queue → Queue × String
unfolding with_row new_item queue_id_of
enqueue env reply q = (with_row env (new_item env (queue_id_of reply) reply) q, queue_id_of reply)

-- The `extra` that `_queue_send_result_extra` hands over: the send's result, and where it went over
-- the bridge the ids with an empty map of acks.
pub record Extra : Type 0 where
  pub send_result : SendPayload
  pub bridge_ids : List String

abbrev pub put_extra : Option Extra → Item → Item
put_extra none item = item
put_extra (some extra) item = elim extra.bridge_ids [
  | [] ↦ record item { send_result = some extra.send_result }
  | id ∷ ids ↦ record item {
    send_result = some extra.send_result;
    bridge_ids = id ∷ ids;
    bridge_acks = [];
  }
]

abbrev pub Review : Type 0
Review = record { status : Status; reviewer : String; note : String; extra : Option Extra }

-- The record that `_transition` writes, with the claim that it uses up.
abbrev pub use_up : Env → Status → Option Claim → Item → Item
use_up env status none item = item
use_up env status (some claim) item = record item {
  send_claim = none;
  last_send_claim = some (resolve claim env.now (status_text status));
}

unfoldable pub reviewed : Env → Review → Option Claim → Item → Item
reviewed env review claim item = put_extra review.extra (
    use_up env review.status claim (record item {
      status = review.status;
      reviewed_at = env.now;
      reviewer = review.reviewer;
      note = review.note;
    }))

-- The fence of `_transition`: an active claim wants its token, and a token an active claim.
unfoldable pub fenced : Item → String → Bool
fenced item token = elim (active_send_claim item) [
  | some claim ↦ elim (require_send_claim item token) [ none ↦ true | some held ↦ false ]
  | none ↦ nonempty token
]

unfoldable pub transition_edit : Env → Review → String → Item → Edit Item
transition_edit env review token item =
    if fenced item token
    then refuse claim_conflict
    else if validate_transition item.status review.status
    then write (reviewed env review (active_send_claim item) item)
        (reviewed env review (active_send_claim item) item)
    else refuse value_error

-- `_transition`
unfoldable pub transition : Env → String → Review → String → Queue → Queue × Outcome Item
transition env queue_id review token q =
    conclude env (raised key_error) q
      (edit_first (has_id queue_id) (transition_edit env review token) (read_all q))

unfoldable pub approve : Env → String → String → String → Queue → Queue × Outcome Item
unfolding transition
approve env queue_id reviewer note =
    transition env queue_id
      (record { status = approved; reviewer = reviewer; note = note; extra = none }) ""

unfoldable pub reject : Env → String → String → String → Queue → Queue × Outcome Item
unfolding transition
reject env queue_id reviewer note =
    transition env queue_id
      (record { status = rejected; reviewer = reviewer; note = note; extra = none }) ""

unfoldable pub is_send_status : Status → Bool
unfolding status_eq
is_send_status status =
    status_eq status queued_to_bridge
    || status_eq status sent
    || status_eq status accepted
    || status_eq status failed

-- The reason of the send is the review's note.
unfoldable pub mark_send_result : Env → String → Review → String → Queue → Queue × Outcome Item
mark_send_result env queue_id review token q =
    if is_send_status review.status
    then transition env queue_id review token q
    else (q, raised value_error)

-- The loop of `remove`: the records kept, and the one removed.
unfoldable pub drop_first : String → List Item → Scan Item
drop_first queue_id [] = missing
drop_first queue_id (x ∷ xs) =
    if has_id queue_id x
    then elim (active_send_claim x) [ none ↦ written xs x | some claim ↦ refused claim_conflict ]
    else behind x (drop_first queue_id xs)

unfoldable pub remove : Env → String → Queue → Queue × Outcome Item
remove env queue_id q = conclude env (raised key_error) q (drop_first queue_id (read_all q))

unfoldable pub list_by_status : Status → Queue → List Item
unfolding read_all status_eq
list_by_status status q = keep (λ item. status_eq item.status status) (read_all q)

unfoldable pub lookup : String → Queue → Option Item
unfolding read_all
lookup queue_id q = find (has_id queue_id) (read_all q)
