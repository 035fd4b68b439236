-- ===== src/ConfirmQueue/Resent.antt =====
-- A send that goes over the bridge once more, as the whole operation sees it (confirm_queue.py,
-- `requeue_bridge_result`).
use chatbot_win.Prelude.{
  String, Bool, true, false, ◌&&◌, none, some, List, [], ◌∷◌, ◌≡◌, ◌≢◌, refl, arith, ◌⊎◌, inl, inr,
  Bool-cases, All, mem, get, any, is_some, strip, nonempty, Option, sym, ◌∙◌,
}
use mathlib.Core.Path.{subst}
use chatbot_win.ConfirmQueue.Item.{
  Status, rejected, failed, queued_to_bridge, Item, Env, active_send_claim, status_eq, status_eq-eq,
}
use chatbot_win.ConfirmQueue.Store.{
  Queue, Outcome, done, raised, claim_conflict, Edit, refuse, answer, write, Scan, missing, refused,
  answered, written, read_all, conclude, Error,
}
use chatbot_win.ConfirmQueue.Bridge.{references_bridge}
use chatbot_win.ConfirmQueue.Rows.{IsValid, IsKeyed, write_all-done}
use chatbot_win.ConfirmQueue.Store.{write_all}
use chatbot_win.ConfirmQueue.Scans.{
  One, here, there, One-map, One-ids, Yields, Edits, edit_last-Yields,
}
use chatbot_win.ConfirmQueue.Retry.{
  Stamp, dedupe_bridge_ids, retry_edit, item_with_retry, retry_ids, replace_bridge_ids,
  requeue_bridge_result,
}
use chatbot_win.ConfirmQueue.Reasons.{Has, Reason, edit_last-Reason}
use chatbot_win.ConfirmQueue.Requeued.{retry_status-open, mem-with_id, get-other_acks}

-- The record `y` that a retry leaves in place of `x`: nobody held it and it was not rejected; it is
-- open again, and counts on the new bridge id, which has no ack yet.
pub record Resent (env : Env) (old new reviewer : String) (x y : Item) : Type 0 where
  pub free : is_some (active_send_claim x) ≡ false
  pub not_rejected : x.status ≢ rejected
  pub status : (y.status ≡ failed) ⊎ (y.status ≡ queued_to_bridge)
  pub retry_of : y.retry_of ≡ old
  pub awaits : mem new y.bridge_ids ≡ true
  pub no_ack : get new y.bridge_acks ≡ none
  pub reviewed_at : y.reviewed_at ≡ env.now
  pub reviewer_is : y.reviewer ≡ reviewer
  pub same_queue_id : y.queue_id ≡ x.queue_id
  pub same_reply : y.reply ≡ x.reply
  pub same_claim : y.send_claim ≡ x.send_claim

Resent-item_with_retry :
    (env : Env) (ids : List String) (old new reviewer : String) (stamp : Stamp) (x : Item)
    → stamp.parent ≡ old
    → stamp.now ≡ env.now
    → is_some (active_send_claim x) ≡ false
    → x.status ≢ rejected
    → Resent env old new reviewer x (item_with_retry ids new stamp reviewer x)
unfolding item_with_retry retry_ids
Resent-item_with_retry env ids old new reviewer stamp x p n free open_ = record {
  free = free;
  not_rejected = open_;
  status = retry_status-open ids new x;
  retry_of = p;
  awaits = mem-with_id new (replace_bridge_ids x.bridge_ids ids new);
  no_ack = get-other_acks ids new x.bridge_acks;
  reviewed_at = n;
  reviewer_is = refl;
  same_queue_id = refl;
  same_reply = refl;
  same_claim = refl;
}

-- The records that a retry of these bridge ids is about.
abbrev pub concerns : String → List String → Item → Bool
concerns old others item = any (references_bridge item) (dedupe_bridge_ids (strip old ∷ others))

-- How the call ended, on the queue `q` that it left as `q'`.
pub data RetryEnd (env : Env) (old new reviewer : String) (others : List String) (q : Queue)
    : Outcome (Option Item) → Queue → Type 0 where
  blank :
      (nonempty (strip old) && nonempty (strip new)) ≡ false
      → RetryEnd env old new reviewer others q (done none) q
  unknown :
      All (λ x. concerns old others x ≡ false) (read_all q)
      → RetryEnd env old new reviewer others q (done none) q
  was_rejected :
      Has (λ x. (concerns old others x ≡ true) × (x.status ≡ rejected)) (read_all q)
      → RetryEnd env old new reviewer others q (done none) q
  was_held :
      Has
        (λ x. (concerns old others x ≡ true) × (is_some (active_send_claim x) ≡ true))
        (read_all q)
      → RetryEnd env old new reviewer others q (raised claim_conflict) q
  resent :
      {q' : Queue} (y : Item)
      → One
          (λ x z.
            (concerns old others x ≡ true)
            × (z ≡ y)
            × Resent env (strip old) (strip new) reviewer x z)
          (read_all q)
          (read_all q')
      → RetryEnd env old new reviewer others q (done (some y)) q'

module _ (env : Env) (old new reviewer : String) (others ids : List String) (stamp : Stamp) where
  abbrev at_record : Item → Edit (Option Item)
  at_record = retry_edit ids (strip new) stamp reviewer

  retry_edit-refuse :
      (x : Item) (e : Error)
      → at_record x ≡ refuse e
      → (e ≡ claim_conflict) × (is_some (active_send_claim x) ≡ true)
  unfolding retry_edit
  retry_edit-refuse x e h = ground arith

  retry_edit-answer :
      (x : Item) (a : Option Item) → at_record x ≡ answer a → (a ≡ none) × (x.status ≡ rejected)
  unfolding retry_edit
  retry_edit-answer x a h = ground (arith, status_eq-eq x.status rejected)

  retry_edit-write :
      (x z : Item) (a : Option Item)
      → at_record x ≡ write z a
      → (a ≡ some z)
        × (z ≡ item_with_retry ids (strip new) stamp reviewer x)
        × (is_some (active_send_claim x) ≡ false)
        × (status_eq x.status rejected ≡ false)
  unfolding retry_edit
  retry_edit-write x z a h = ground arith

  not_rejected_of : (s : Status) → status_eq s rejected ≡ false → s ≢ rejected
  unfolding status_eq
  not_rejected_of s h e = ground arith

  Resent-write :
      (x z : Item) (a : Option Item)
      → stamp.parent ≡ strip old
      → stamp.now ≡ env.now
      → Edits (concerns old others) at_record a x z
      → (concerns old others x ≡ true)
        × (a ≡ some z)
        × Resent env (strip old) (strip new) reviewer x z
  Resent-write x z a p n (t, e) =
      let (given, made, free, open_) = retry_edit-write x z a e in
      (
        t,
        given,
        rw made (
            Resent-item_with_retry env ids (strip old) (strip new) reviewer stamp x p n free
              (not_rejected_of x.status open_)),
      )

  Has-refuse :
      (xs : List Item) (e : Error)
      → Has (λ x. (concerns old others x ≡ true) × (at_record x ≡ refuse e)) xs
      → (e ≡ claim_conflict)
        × Has (λ x. (concerns old others x ≡ true) × (is_some (active_send_claim x) ≡ true)) xs
  Has-refuse [] e h = elim h [ ]
  Has-refuse (x ∷ xs) e (inl (t, h)) =
      let (same_error, held) = retry_edit-refuse x e h in (same_error, inl (t, held))
  Has-refuse (x ∷ xs) e (inr h) = let (same_error, at) = Has-refuse xs e h in (same_error, inr at)

  Has-answer :
      (xs : List Item) (a : Option Item)
      → Has (λ x. (concerns old others x ≡ true) × (at_record x ≡ answer a)) xs
      → (a ≡ none) × Has (λ x. (concerns old others x ≡ true) × (x.status ≡ rejected)) xs
  Has-answer [] a h = elim h [ ]
  Has-answer (x ∷ xs) a (inl (t, h)) =
      let (same_answer, gone) = retry_edit-answer x a h in (same_answer, inl (t, gone))
  Has-answer (x ∷ xs) a (inr h) = let (same_answer, at) = Has-answer xs a h in (same_answer, inr at)

  -- The answer of a write is the record written.
  One-some :
      {P : Item → Item → Type 0} {a : Option Item} {xs ys : List Item}
      → One (λ x z. (concerns old others x ≡ true) × (a ≡ some z) × P x z) xs ys
      → (z : Item) × (a ≡ some z)
  One-some (here {y = y} (t, given, r)) = (y, given)
  One-some (there o) = One-some o

  some-eq : (w z : Item) → some w ≡ some z → w ≡ z
  some-eq w z h = cc

  RetryEnd-written :
      (ys : List Item) (y : Item) (q : Queue)
      → IsValid q
      → One
          (λ x z.
            (concerns old others x ≡ true)
            × (z ≡ y)
            × Resent env (strip old) (strip new) reviewer x z)
          (read_all q)
          ys
      → RetryEnd env old new reviewer others q
          (write_all env ys (some y) q).1
          (write_all env ys (some y) q).0
  RetryEnd-written ys y q v o =
      let keyed : IsKeyed ys = rw (One-ids (λ x z r. r.2.same_queue_id) o) v.keyed in
      let (answers, reads, v') = write_all-done env ys (some y) q keyed in
      subst (λ e. RetryEnd env old new reviewer others q e (write_all env ys (some y) q).0)
        (sym answers) (resent y (subst (One _ (read_all q)) (sym reads) o))

  RetryEnd-conclude :
      (q : Queue) (s : Scan (Option Item))
      → stamp.parent ≡ strip old
      → stamp.now ≡ env.now
      → IsValid q
      → Reason (concerns old others) at_record (read_all q) s
      → Yields (Edits (concerns old others) at_record) (read_all q) s
      → RetryEnd env old new reviewer others q
          (conclude env (done none) q s).1
          (conclude env (done none) q s).0
  unfolding conclude
  RetryEnd-conclude q missing p n v h y = unknown h
  RetryEnd-conclude q (refused e) p n v h y =
      let (same_error, at) = Has-refuse (read_all q) e h in rw same_error (was_held at)
  RetryEnd-conclude q (answered a) p n v h y =
      let (same_answer, at) = Has-answer (read_all q) a h in rw same_answer (was_rejected at)
  RetryEnd-conclude q (written ys a) p n v h y =
      let o = One-map (λ x z. Resent-write x z a p n) y in
      let (z, given) = One-some o in
      subst
        (λ b.
          RetryEnd env old new reviewer others q (write_all env ys b q).1 (write_all env ys b q).0)
        (sym given)
        (RetryEnd-written ys z q v (One-map (λ x w r. (r.0, some-eq w z (sym r.1 ∙ given), r.2)) o))

-- In a valid queue a retry over the bridge ends in one of these ways. It answers nothing and leaves the
-- queue as it is where an id is blank, where no record refers to the old ids, or where one that does
-- was rejected; it raises a claim conflict and leaves the queue as it is where one that does is
-- claimed. Else it answers the record that now stands in place of one that refers to the old ids, was
-- free and was not rejected, every other record as it was: it is failed or queued to the bridge, a
-- retry of the old id, waits for the new id, has no ack of it, and its id, reply and claim are those
-- it had.
pub requeue_bridge_result_lem :
    (env : Env) (old new reason reviewer : String) (others : List String) (q : Queue)
    → IsValid q
    → RetryEnd env old new reviewer others q
        (requeue_bridge_result env old new reason reviewer others q).1
        (requeue_bridge_result env old new reason reviewer others q).0
unfolding requeue_bridge_result
requeue_bridge_result_lem env old new reason reviewer others q v =
    elim (Bool-cases (nonempty (strip old) && nonempty (strip new))) [
      | inr empty ↦ rw empty (blank empty)
      | inl ok ↦ rw ok (
          RetryEnd-conclude env old new reviewer others _ _ q _ refl refl v
            (edit_last-Reason (concerns old others) _ (read_all q))
            (edit_last-Yields (concerns old others) _ (read_all q)))
    ]
