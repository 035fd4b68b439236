-- ===== src/ConfirmQueue/Moves/Queues.antt =====
-- Every call keeps the table of the queue valid and makes at most one move (confirm_queue.py).
use chatbot_win.Prelude.{
  Bool, true, false, ◌&&◌, List, [], ◌∷◌, refl, Bool-cases, inl, inr, nonempty, strip,
  if◌then◌else◌,
}
use chatbot_win.ConfirmQueue.Item.{Env}
use chatbot_win.ConfirmQueue.Store.{Queue, Outcome, read_all}
use chatbot_win.ConfirmQueue.Rows.{IsValid}
use chatbot_win.ConfirmQueue.Claims.{claim_approved_for_send, release_send_claim}
use chatbot_win.ConfirmQueue.Review.{
  transition, mark_send_result, is_send_status, remove, enqueue, new_item, queue_id_of,
}
use chatbot_win.ConfirmQueue.Bridge.{update_referencing_bridge}
use chatbot_win.ConfirmQueue.Retry.{requeue_bridge_result}
use chatbot_win.ConfirmQueue.Moves.Calls.{
  Call, enqueues, claims, releases, reviews, marks, removes, requeues, updates, step, run,
}
use chatbot_win.ConfirmQueue.Moves.Refine.{
  claim_edit-Move, release_edit-Move, transition_edit-Move, update_edit-Move, retry_edit-Move,
}
use chatbot_win.ConfirmQueue.Moves.Evolutions.{
  Steps, stays, edit_first-Steps, edit_last-Steps, drop_first-Drops, drop-Steps,
}
use chatbot_win.ConfirmQueue.Moves.Appends.{with_row-Steps}

if-Steps :
    {A : Type 0} (call : Call) (q : Queue) (b : Bool) (x y : Queue × Outcome A)
    → Steps call q x.0
    → Steps call q y.0
    → Steps call q (if b then x else y).0
if-Steps call q true x y h k = h
if-Steps call q false x y h k = k

pub step-Steps : (env : Env) (call : Call) (q : Queue) → IsValid q → Steps call q (step env call q)
unfolding step claim_approved_for_send release_send_claim transition mark_send_result remove
    requeue_bridge_result update_referencing_bridge enqueue new_item
step-Steps env (enqueues reply plain) q v =
    with_row-Steps _ env (new_item env (queue_id_of reply) reply) q v refl refl plain.0 plain.1
step-Steps env (claims owner queue_id) q v =
    edit_first-Steps _ env _ _ _ (λ a x y. claim_edit-Move _ env owner x y a) q v
step-Steps env (releases queue_id token reason) q v =
    edit_first-Steps _ env _ _ _ (λ a x y. release_edit-Move queue_id env token reason x y a) q v
step-Steps env (reviews queue_id r) q v =
    edit_first-Steps _ env _ _ _ (λ a x y. transition_edit-Move _ env r "" x y a (inl refl)) q v
step-Steps env (marks queue_id r token) q v = elim (Bool-cases (is_send_status r.status)) [
  | inl ok ↦
      rw (ok, step, mark_send_result)
        (edit_first-Steps _ env _ _ _ (λ a x y. transition_edit-Move _ env r token x y a (inr ok)) q
          v)
  | inr bad ↦ rw (bad, step, mark_send_result) (stays _ q v)
]
step-Steps env (removes queue_id) q v =
    drop-Steps queue_id _ env _ q _ v refl (drop_first-Drops queue_id (read_all q))
step-Steps env (requeues old new reason reviewer others) q v =
    if-Steps _ q (nonempty (strip old) && nonempty (strip new)) _ _
      (edit_last-Steps _ env _ _ _ (λ a x y. retry_edit-Move _ _ _ _ reviewer x y a) q v)
      (stays _ q v)
step-Steps env (updates sames bridge_id updater leaves) q v =
    if-Steps _ q (nonempty (strip bridge_id)) _ _
      (edit_last-Steps _ env _ _ _ (λ a x y. update_edit-Move _ sames updater x y a leaves) q v)
      (stays _ q v)

-- A valid table stays valid, whatever calls any processes make.
pub run-IsValid : (calls : List (Env × Call)) (q : Queue) → IsValid q → IsValid (run calls q)
unfolding run
run-IsValid [] q v = v
run-IsValid ((env, call) ∷ calls) q v =
    run-IsValid calls (step env call q) (step-Steps env call q v).1
