-- ===== src/ConfirmQueue/Requeued.antt =====
-- The status of a record after a retry over the bridge (confirm_queue.py, `_queue_item_with_bridge_retry`).
use chatbot_win.Prelude.{
  String, true, none, List, [], ◌∷◌, ◌++◌, ◌≡◌, refl, arith, ◌⊎◌, inl, inr, ◌==◌, eq_iff, eq_refl,
  get, Dict, mem, Bool-cases,
}
use chatbot_win.ConfirmQueue.Item.{failed, queued_to_bridge, Item, BridgeAck}
use chatbot_win.ConfirmQueue.Retry.{
  other_acks, ack_statuses, some_is, aggregate, aggregate_requeued, with_id, retry_ids,
  retry_status, replace_bridge_ids,
}

mem-append : (k : String) (xs : List String) → mem k (xs ++ k ∷ []) ≡ true
mem-append k [] = rw (eq_refl k) refl
mem-append k (x ∷ xs) = ground (arith, mem-append k xs)

pub mem-with_id : (k : String) (xs : List String) → mem k (with_id k xs) ≡ true
mem-with_id k xs = elim (Bool-cases (mem k xs)) [ inl e ↦ rw e e | inr e ↦ rw e (mem-append k xs) ]

pub get-other_acks :
    (old : List String) (new : String) (acks : Dict BridgeAck)
    → get new (other_acks old new acks) ≡ none
unfolding get
get-other_acks old new [] = refl
get-other_acks old new ((k, a) ∷ acks) = ground (arith, get-other_acks old new acks)

some_is-ack_statuses :
    (new : String) (ids : List String) (acks : Dict BridgeAck)
    → get new acks ≡ none
    → mem new ids ≡ true
    → some_is "queued_to_bridge" (ack_statuses ids acks) ≡ true
unfolding ack_statuses
some_is-ack_statuses new [] acks g m = cc
some_is-ack_statuses new (k ∷ ks) acks g m = elim (Bool-cases (k == new)) [
  | inl e ↦ let none_there : get k acks ≡ none = rw ((eq_iff k new).0 e) g in rw none_there refl
  | inr e ↦ ground (arith, some_is-ack_statuses new ks acks g)
]

aggregate-queued :
    (statuses : List String)
    → some_is "queued_to_bridge" statuses ≡ true
    → (aggregate statuses ≡ failed) ⊎ (aggregate statuses ≡ queued_to_bridge)
unfolding aggregate
aggregate-queued statuses h = ground arith

-- A retry leaves the record failed or queued to the bridge, never accepted or sent: the new bridge id
-- has no ack yet.
pub retry_status-open :
    (old : List String) (new : String) (x : Item)
    → (retry_status old new x ≡ failed) ⊎ (retry_status old new x ≡ queued_to_bridge)
unfolding retry_status aggregate_requeued retry_ids
retry_status-open old new x =
    let ids = with_id new (replace_bridge_ids x.bridge_ids old new) in
    let acks = other_acks old new x.bridge_acks in
    aggregate-queued (ack_statuses ids acks) (
      some_is-ack_statuses new ids acks (get-other_acks old new x.bridge_acks)
        (mem-with_id new (replace_bridge_ids x.bridge_ids old new)))
