-- ===== src/ConfirmQueue/Safety.antt =====
-- The status of a record under any call and over any history of calls by any processes
-- (confirm_queue.py).
use chatbot_win.Prelude.{
  String, true, Option, some, List, [], ◌∷◌, ◌≡◌, ◌≢◌, refl, arith, ◌∙◌, ◌⊎◌, inl, inr,
}
use chatbot_win.ConfirmQueue.Item.{
  Status, rejected, queued_to_bridge, failed, Claim, Item, Env, allowed, active_send_claim,
  status_eq, validate_transition,
}
use chatbot_win.ConfirmQueue.Store.{Queue}
use chatbot_win.ConfirmQueue.Claims.{retire}
use chatbot_win.ConfirmQueue.Review.{Review, lookup, reviewed}
use chatbot_win.ConfirmQueue.Retry.{Stamp, item_with_retry, retry_status}
use chatbot_win.ConfirmQueue.Requeued.{retry_status-open}
use chatbot_win.ConfirmQueue.Rows.{IsValid}
use chatbot_win.ConfirmQueue.Moves.{
  Move, claim, expire, release, review, ack, retry, Call, run, Every, Removes, step, record-step,
  run-keeps,
}

pub reviewed-status :
    (env : Env) (r : Review) (c : Option Claim) (x : Item) → (reviewed env r c x).status ≡ r.status
unfolding reviewed
reviewed-status env r c x = ground arith

rejected-Move :
    (call : Call) (x y : Item)
    → Unit {0}
    → Move call x y
    → x.status ≡ rejected
    → y.status ≡ rejected
unfolding validate_transition status_eq allowed
rejected-Move call x y triv (claim env owner ok free e) h = cc
rejected-Move call x y triv (expire env c ok held dead e) h = cc
rejected-Move call x y triv (release token c t ok held s i n) h = s ∙ h
rejected-Move call x y triv (review env r token u f v e) h =
    ground (arith, reviewed-status env r (active_send_claim x) x)
rejected-Move call x y triv (ack free v i c) h = ground arith
rejected-Move call x y triv (retry old new stamp reviewer free open_ e) h = absurd (open_ h)

pub retry-status :
    (old : List String) (new : String) (stamp : Stamp) (reviewer : String) (x : Item)
    → (item_with_retry old new stamp reviewer x).status ≡ retry_status old new x
unfolding item_with_retry
retry-status old new stamp reviewer x = refl

pub retire-status : (env : Env) (c : Claim) (x : Item) → (retire env c x).status ≡ failed
unfolding retire
retire-status env c x = refl

-- The edges that a record's status can follow: those of `_ALLOWED_TRANSITIONS`, and a retry's from
-- any status but rejected.
abbrev pub Edge : Status → Status → Type 0
Edge s t =
    (validate_transition s t ≡ true) ⊎ ((s ≢ rejected) × ((t ≡ failed) ⊎ (t ≡ queued_to_bridge)))

status-Move : (call : Call) (x y : Item) → Move call x y → Edge x.status y.status
unfolding validate_transition status_eq allowed
status-Move call x y (claim env owner ok free e) = inl (ground arith)
status-Move call x y (expire env c ok held dead e) = inl (ground (arith, retire-status env c x))
status-Move call x y (release token c t ok held s i n) = inl (ground arith)
status-Move call x y (review env r token u f v e) =
    inl (ground (arith, reviewed-status env r (active_send_claim x) x))
status-Move call x y (ack free v i c) = inl v
status-Move call x y (retry old new stamp reviewer free open_ e) =
    inr (open_, rw e (rw (retry-status old new stamp reviewer x) (retry_status-open old new x)))

-- One call on a valid queue that does not remove the record leaves it there, and its status stays or
-- follows the graph of transitions, or, unless it was rejected, becomes failed or queued to the bridge.
pub status-step :
    (env : Env) (call : Call) (k : String) (x : Item) (q : Queue)
    → IsValid q
    → ¬ Removes call k
    → lookup k q ≡ some x
    → (y : Item) × (lookup k (step env call q) ≡ some y) × Edge x.status y.status
unfolding validate_transition status_eq
status-step env call k x q v keeps h =
    let (y, found, fate) = record-step env call k x q v keeps h in
    (y, found, elim fate [ inl e ↦ inl (ground arith) | inr m ↦ status-Move call x y m ])

-- In a valid queue a rejected record stays there and stays rejected, whatever calls any processes make,
-- as long as none removes it.
pub rejected-final :
    (calls : List (Env × Call)) (k : String) (x : Item) (q : Queue)
    → IsValid q
    → Every (λ call. ¬ Removes call k) calls
    → lookup k q ≡ some x
    → x.status ≡ rejected
    → (y : Item) × (lookup k (run calls q) ≡ some y) × (y.status ≡ rejected)
rejected-final calls k x q v keeps h r =
    run-keeps (λ z. z.status ≡ rejected) (λ call. Unit {0}) rejected-Move calls k x q v
      (every calls) keeps h r
  where
    every : (calls : List (Env × Call)) → Every (λ call. Unit {0}) calls
    every [] = tt
    every (c ∷ cs) = (tt, every cs)
