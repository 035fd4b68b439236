-- ===== src/ConfirmQueue/Bridge.antt =====
-- Records found by a bridge id, and their update by an ack (confirm_queue.py):
-- `_queue_item_references_bridge`, `find_by_bridge_id` and `update_referencing_bridge`.
use chatbot_win.Prelude.{
  String, Bool, true, false, not, ◌||◌, Option, none, some, if◌then◌else◌, nonempty, strip,
  contains, mem, any, or_else, ◌==◌, find, Dict, is_some,
}
use mathlib.Core.List.{reverse}
use chatbot_win.ConfirmQueue.Item.{
  Item, Env, BridgeAck, SendPart, SendDetails, SendPayload, active_send_claim, validate_transition,
}
use chatbot_win.ConfirmQueue.Store.{
  Queue, Outcome, done, claim_conflict, value_error, Edit, refuse, answer, write, read_all,
  edit_last, conclude,
}

abbrev pub keys_have : String → Dict BridgeAck → Bool
keys_have bridge_id = any (λ entry. entry.0 == bridge_id)

abbrev text_is : String → Option SendPart → Bool
text_is bridge_id none = false
text_is bridge_id (some part) = or_else part.message_id part.bridge_id == bridge_id

abbrev file_is : String → SendPart → Bool
file_is bridge_id part =
    or_else part.message_id part.bridge_id == bridge_id || contains bridge_id part.reason

abbrev details_reference : String → Option SendDetails → Bool
details_reference bridge_id none = false
details_reference bridge_id (some d) =
    mem bridge_id d.bridge_ids || text_is bridge_id d.text || any (file_is bridge_id) d.files

-- `_send_result_references_bridge`, false of an item with no result: the bridge id is not empty.
unfoldable pub send_result_references_bridge : Option SendPayload → String → Bool
send_result_references_bridge none bridge_id = false
send_result_references_bridge (some r) bridge_id =
    r.message_id == bridge_id
    || contains bridge_id r.reason
    || details_reference bridge_id r.details

abbrev ack_is : String → Option BridgeAck → Bool
ack_is bridge_id none = false
ack_is bridge_id (some ack) = ack.bridge_id == bridge_id

-- `_queue_item_references_bridge`
unfoldable pub references_bridge : Item → String → Bool
unfolding send_result_references_bridge
references_bridge item bridge_id =
    contains bridge_id item.note
    || item.retry_of == bridge_id
    || mem bridge_id item.bridge_ids
    || keys_have bridge_id item.bridge_acks
    || ack_is bridge_id item.last_bridge_ack
    || send_result_references_bridge item.send_result bridge_id

unfoldable pub find_by_bridge_id : String → Queue → Option Item
unfolding references_bridge read_all
find_by_bridge_id bridge_id q =
    if nonempty (strip bridge_id)
    then find (λ item. references_bridge item (strip bridge_id)) (reverse (read_all q))
    else none

-- The original record, the updated one, and whether the queue changed.
pub record Update : Type 0 where
  pub original : Option Item
  pub updated : Option Item
  pub changed : Bool

-- The callback decides on a copy of the record; `same` is Python's comparison of the two dicts.
unfoldable pub apply_updater : (Item → Item → Bool) → Item → Option Item → Edit Update
apply_updater same item none =
    answer (record { original = some item; updated = none; changed = false })
apply_updater same item (some next) =
    if not (validate_transition item.status next.status)
    then refuse value_error
    else if same next item
    then answer (record { original = some item; updated = some next; changed = false })
    else write next (record { original = some item; updated = some next; changed = true })

unfoldable pub update_edit : (Item → Item → Bool) → (Item → Option Item) → Item → Edit Update
update_edit same updater item =
    if is_some (active_send_claim item)
    then refuse claim_conflict
    else apply_updater same item (updater item)

abbrev nothing : Update
nothing = record { original = none; updated = none; changed = false }

unfoldable pub update_referencing_bridge :
    Env → (Item → Item → Bool) → String → (Item → Option Item) → Queue → Queue × Outcome Update
update_referencing_bridge env same bridge_id updater q =
    if nonempty (strip bridge_id)
    then conclude env (done nothing) q (
        edit_last (λ item. references_bridge item (strip bridge_id)) (update_edit same updater)
          (read_all q))
    else (q, done nothing)
