-- ===== src/ConfirmQueue/Retry.antt =====
-- A send that goes over the bridge once more (confirm_queue.py): `requeue_bridge_result` and the
-- helpers that replace the old bridge ids in the record, its result and the parts of that.
use Prim.Native.String
use chatbot_win.Prelude.{
  String, Bool, true, false, not, ◌&&◌, ◌||◌, Option, none, some, List, [], ◌∷◌, ◌++◌,
  if◌then◌else◌, nonempty, strip, starts_with, contains, mem, any, all, or_else, ◌==◌, get, Dict,
  is_some, keep,
}
use mathlib.Core.List.{map}
use chatbot_win.ConfirmQueue.Item.{
  Status, status_text, rejected, queued_to_bridge, sent, accepted, failed, Item, Env, BridgeAck,
  SendPart, SendDetails, SendPayload, active_send_claim, status_eq,
}
use chatbot_win.ConfirmQueue.Store.{
  Queue, Outcome, done, claim_conflict, Edit, refuse, answer, write, read_all, edit_last, conclude,
}
use chatbot_win.ConfirmQueue.Bridge.{references_bridge}

-- The loop of `_dedupe_bridge_ids`, with the ids seen.
unfoldable pub dedupe_from : List String → List String → List String
dedupe_from seen [] = []
dedupe_from seen (value ∷ values) =
    let rest = dedupe_from seen values in
    let kept = strip value ∷ dedupe_from (strip value ∷ seen) values in
    if not (starts_with (strip value) "bridge:") || mem (strip value) seen then rest else kept

unfoldable pub dedupe_bridge_ids : List String → List String
unfolding dedupe_from
dedupe_bridge_ids values = dedupe_from [] values

abbrev swap_id : List String → String → String → String
swap_id old new value = if mem value old then new else value

-- `_replace_bridge_ids`
unfoldable pub replace_bridge_ids : List String → List String → String → List String
unfolding dedupe_bridge_ids
replace_bridge_ids values old new =
    let replaced = map (swap_id old new) values in
    if any (λ value. mem value old) values && not (mem new replaced)
    then dedupe_bridge_ids (replaced ++ new ∷ [])
    else dedupe_bridge_ids replaced

-- `_send_part_references_bridge`
unfoldable pub part_references : SendPart → String → Bool
part_references part bridge_id =
    part.message_id == bridge_id
    || part.bridge_id == bridge_id
    || part.external_id == bridge_id
    || contains bridge_id part.reason

-- The stamp that a retry puts on a part, on the whole result, or on neither.
pub record Stamp : Type 0 where
  pub parent : String
  pub reason : String
  pub now : String

-- `_send_part_with_bridge_retry`
unfoldable pub part_with_retry : List String → String → Stamp → SendPart → SendPart
part_with_retry old new stamp part = record part {
  message_id = swap_id old new part.message_id;
  bridge_id = swap_id old new part.bridge_id;
  external_id = swap_id old new part.external_id;
  status = status_text queued_to_bridge;
  reason = stamp.reason;
  sent_at = "";
  retry_of = stamp.parent;
  retry_at = stamp.now;
  updated_at = stamp.now;
  external_message_id = "";
  last_bridge_ack = none;
}

abbrev retry_if_match : List String → String → Stamp → SendPart → SendPart
retry_if_match old new stamp part =
    if any (part_references part) old then part_with_retry old new stamp part else part

abbrev retry_text : List String → String → Stamp → Option SendPart → Option SendPart
retry_text old new stamp none = none
retry_text old new stamp (some part) = some (retry_if_match old new stamp part)

abbrev pub with_id : String → List String → List String
with_id new ids = if mem new ids then ids else ids ++ new ∷ []

-- The acks that stay: those of neither an old id nor the new one.
abbrev pub other_acks : List String → String → Dict BridgeAck → Dict BridgeAck
other_acks old new = keep (λ entry. not (mem entry.0 old) && not (entry.0 == new))

abbrev retry_details : List String → String → Stamp → Option SendDetails → Option SendDetails
retry_details old new stamp none = none
retry_details old new stamp (some d) = some (record {
  bridge_ids = with_id new (replace_bridge_ids d.bridge_ids old new);
  text = retry_text old new stamp d.text;
  files = map (retry_if_match old new stamp) d.files;
  bridge_acks = other_acks old new d.bridge_acks;
  last_bridge_ack = none;
})

-- `_send_result_with_bridge_retry` of a result that is there, with the aggregate status that the
-- caller writes over it.
unfoldable pub send_result_with_retry :
    List String → String → Stamp → String → SendPayload → SendPayload
unfolding part_references part_with_retry replace_bridge_ids
send_result_with_retry old new stamp status r = record {
  part = record r.part {
    message_id = swap_id old new r.message_id;
    bridge_id = swap_id old new r.bridge_id;
    status = status;
    reason = stamp.reason;
    sent_at = "";
    retry_of = stamp.parent;
    retry_at = stamp.now;
    updated_at = stamp.now;
    external_message_id = if any (part_references r.part) old then "" else r.external_message_id;
    last_bridge_ack = none;
  };
  details = retry_details old new stamp r.details;
}

abbrev pub ack_status : Option BridgeAck → String
ack_status none = "queued_to_bridge"
ack_status (some ack) = or_else ack.queue_status (or_else ack.status "queued_to_bridge")

-- `statuses` of `_aggregate_requeued_bridge_status`
unfoldable pub ack_statuses : List String → Dict BridgeAck → List String
unfolding get
ack_statuses [] acks = []
ack_statuses (bridge_id ∷ ids) acks = ack_status (get bridge_id acks) ∷ ack_statuses ids acks

abbrev pub some_is : String → List String → Bool
some_is status = any (λ s. s == status)

abbrev is_empty : List String → Bool
is_empty [] = true
is_empty (s ∷ ss) = false

-- Where the aggregate of the parts' statuses is decided.
unfoldable pub aggregate : List String → Status
aggregate statuses =
    if some_is "failed" statuses
    then failed
    else if some_is "queued_to_bridge" statuses
    then queued_to_bridge
    else if some_is "accepted" statuses
    then accepted
    else if not (is_empty statuses) && all (λ s. s == "sent") statuses
    then sent
    else queued_to_bridge

-- `_aggregate_requeued_bridge_status`
unfoldable pub aggregate_requeued : List String → Dict BridgeAck → Status
unfolding aggregate ack_statuses
aggregate_requeued ids acks = aggregate (ack_statuses ids acks)

abbrev retry_payload :
    List String → String → Stamp → String → Option SendPayload → Option SendPayload
retry_payload old new stamp status none = none
retry_payload old new stamp status (some r) = some (send_result_with_retry old new stamp status r)

unfoldable pub retry_ids : List String → String → Item → List String
unfolding replace_bridge_ids
retry_ids old new item = with_id new (replace_bridge_ids item.bridge_ids old new)

unfoldable pub retry_status : List String → String → Item → Status
unfolding aggregate_requeued retry_ids
retry_status old new item =
    aggregate_requeued (retry_ids old new item) (other_acks old new item.bridge_acks)

-- `_queue_item_with_bridge_retry`
unfoldable pub item_with_retry : List String → String → Stamp → String → Item → Item
item_with_retry old new stamp reviewer item = record item {
  status = retry_status old new item;
  reviewed_at = stamp.now;
  reviewer = reviewer;
  note = stamp.reason;
  retry_of = stamp.parent;
  bridge_ids = retry_ids old new item;
  bridge_acks = other_acks old new item.bridge_acks;
  last_bridge_ack = none;
  send_result =
      retry_payload old new stamp (status_text (retry_status old new item)) item.send_result;
}

unfoldable pub retry_edit : List String → String → Stamp → String → Item → Edit (Option Item)
retry_edit old new stamp reviewer item =
    if is_some (active_send_claim item)
    then refuse claim_conflict
    else if status_eq item.status rejected
    then answer none
    else write (item_with_retry old new stamp reviewer item)
        (some (item_with_retry old new stamp reviewer item))

-- `requeue_bridge_result`
unfoldable pub requeue_bridge_result :
    Env → String → String → String → String → List String → Queue → Queue × Outcome (Option Item)
requeue_bridge_result env old new reason reviewer others q =
    let candidates = dedupe_bridge_ids (strip old ∷ others) in
    let stamp : Stamp = record {
      parent = strip old;
      reason = or_else reason (String.◌++◌ "retry_to_non_foreground_bridge:" (strip new));
      now = env.now;
    } in
    if nonempty (strip old) && nonempty (strip new)
    then conclude env (done none) q (
        edit_last (λ item. any (references_bridge item) candidates)
          (retry_edit candidates (strip new) stamp reviewer) (read_all q))
    else (q, done none)
