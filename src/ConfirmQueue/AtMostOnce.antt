-- ===== src/ConfirmQueue/AtMostOnce.antt =====
-- At-most-once sending (confirm_queue.py): what the send claim protects, over any history of calls by
-- any processes.
use mathlib.Core.Path.{subst}
use chatbot_win.Prelude.{
  String, Bool, true, false, some, List, ◌≡◌, refl, arith, ◌∙◌, ◌⊎◌, inl, inr, eq_iff, nonempty,
  strip,
}
use chatbot_win.ConfirmQueue.Item.{
  Status, pending, approved, queued_to_bridge, failed, Claim, Item, Env, allowed, active_send_claim,
  status_eq, validate_transition,
}
use chatbot_win.ConfirmQueue.Store.{Queue, Outcome, done, raised, key_error}
use chatbot_win.ConfirmQueue.Claims.{
  claimed, ClaimResult, new_claim, require_send_claim, claim_item, claim_edit,
  claim_approved_for_send,
}
use chatbot_win.ConfirmQueue.Review.{Review, lookup, reviewed, fenced, is_send_status}
use chatbot_win.ConfirmQueue.Requeued.{retry_status-open}
use chatbot_win.ConfirmQueue.Rows.{IsValid}
use chatbot_win.ConfirmQueue.Moves.{
  Move, claim, expire, release, review, ack, retry, Call, claims, step, run, Every, Releases,
  Removes, run-keeps, answer_of, result_of, edit_first-at, claim_edit-Move, queue_id-Move,
  step-Steps, run-IsValid,
}
use chatbot_win.ConfirmQueue.Safety.{reviewed-status, retry-status, retire-status}

-- The record is past its send: its status is one that no claim accepts and none leads back from.
abbrev is_open : Status → Bool
is_open pending = true
is_open approved = true
is_open _ = false

-- The claim with the token `t` is still held, or the record is past its send.
data Spent (t : String) (x : Item) : Type 0 where
  held : (c : Claim) → active_send_claim x ≡ some c → c.token ≡ t → Spent t x
  closed : is_open x.status ≡ false → Spent t x

require-active :
    (x : Item) (token : String) (c : Claim)
    → active_send_claim x ≡ some c
    → (d : Claim) → require_send_claim x token ≡ some d
    → (d ≡ c) × (token ≡ c.token) × (nonempty token ≡ true)
unfolding require_send_claim
require-active x token c a d h = ground (arith, eq_iff token c.token)

fenced-held :
    (x : Item) (token : String) (c : Claim)
    → active_send_claim x ≡ some c
    → fenced x token ≡ false
    → nonempty token ≡ true
unfolding fenced require_send_claim
fenced-held x token c a h = ground arith

closed-validate :
    (s t : Status) → is_open s ≡ false → validate_transition s t ≡ true → is_open t ≡ false
unfolding validate_transition status_eq allowed
closed-validate s t h v = ground arith

closed-send : (s : Status) → is_send_status s ≡ true → is_open s ≡ false
unfolding is_send_status status_eq
closed-send s h = ground arith

closed-retry : (s : Status) → (s ≡ failed) ⊎ (s ≡ queued_to_bridge) → is_open s ≡ false
closed-retry s h = ground arith

Spent-review :
    (t : String) (x y : Item) (env : Env) (r : Review) (token : String)
    → (nonempty token ≡ false) ⊎ (is_send_status r.status ≡ true)
    → fenced x token ≡ false
    → validate_transition x.status r.status ≡ true
    → y ≡ reviewed env r (active_send_claim x) x
    → Spent t x
    → Spent t y
Spent-review t x y env r token u f v e (held c a k) = elim u [
  | inl blank ↦ absurd (cc (fenced-held x token c a f))
  | inr ok ↦ closed (rw e (rw reviewed-status (closed-send r.status ok)))
]
Spent-review t x y env r token u f v e (closed h) =
    closed (rw e (rw reviewed-status (closed-validate x.status r.status h v)))

Spent-Move :
    (t : String) (call : Call) (x y : Item)
    → ¬ Releases call t
    → Move call x y
    → Spent t x
    → Spent t y
Spent-Move t call x y keeps (claim env owner ok free e) (held c a k) = cc
Spent-Move t call x y keeps (claim env owner ok free e) (closed h) = cc (rw ok at h)
Spent-Move t call x y keeps (expire env d ok a dead e) s = closed (rw e (rw retire-status refl))
Spent-Move t call x y keeps (release token d gives ok r e i n) (held c a k) =
    let (same_claim, same_token, full) = require-active x token c a d r in
    absurd (keeps (subst (Releases call) (same_token ∙ k) gives))
Spent-Move t call x y keeps (release token d gives ok r e i n) (closed h) = cc (rw ok at h)
Spent-Move t call x y keeps (review env r token u f v e) s =
    Spent-review t x y env r token u f v e s
Spent-Move t call x y keeps (ack free v i c) (held d a k) = cc
Spent-Move t call x y keeps (ack free v i c) (closed h) =
    closed (closed-validate x.status y.status h v)
Spent-Move t call x y keeps (retry old new stamp reviewer free other e) s =
    closed (rw e (rw retry-status (closed-retry _ (retry_status-open old new x))))

-- What a claim of the record with this id answers, and what it leaves.
pub claim_approved_for_send_lem :
    (env : Env) (owner k : String) (x : Item) (q : Queue)
    → IsValid q
    → lookup k q ≡ some x
    → ((claim_approved_for_send env owner k q).1 ≡ answer_of (claim_edit env owner x))
      × (lookup k (claim_approved_for_send env owner k q).0
          ≡ some (result_of x (claim_edit env owner x)))
unfolding claim_approved_for_send
claim_approved_for_send_lem env owner k x q v h =
    edit_first-at k (claim_edit env owner)
      (λ y z a e.
        queue_id-Move (claims owner k) y z (claim_edit-Move (claims owner k) env owner y z a e))
      env (raised key_error) q x v h

abbrev pub IsClaimed : Outcome ClaimResult → Type 0
IsClaimed (raised e) = ⊥
IsClaimed (done r) = r.reason ≡ claimed

claim_edit-Spent :
    (t owner : String) (env : Env) (x : Item)
    → Spent t x
    → ¬ IsClaimed (answer_of (claim_edit env owner x))
unfolding claim_edit claim_item status_eq
claim_edit-Spent t owner env x (held c a k) h = ground arith
claim_edit-Spent t owner env x (closed o) h = ground arith

claim_edit-claimed :
    (owner : String) (env : Env) (x : Item)
    → nonempty (strip env.token) ≡ true
    → IsClaimed (answer_of (claim_edit env owner x))
    → active_send_claim (result_of x (claim_edit env owner x)) ≡ some (new_claim env owner)
unfolding claim_edit claim_item status_eq active_send_claim
claim_edit-claimed owner env x n h = ground arith

-- In a valid queue: once a process has claimed a record for a send, with a token that is not blank, no
-- claim of that record succeeds again, whatever calls any processes make in between, as long as none
-- of them releases the claim with its own token or removes the record.
pub at_most_one_claim :
    (env env' : Env) (owner owner' k : String) (x : Item) (q : Queue) (calls : List (Env × Call))
    → IsValid q
    → lookup k q ≡ some x
    → nonempty (strip env.token) ≡ true
    → IsClaimed (claim_approved_for_send env owner k q).1
    → Every (λ call. ¬ Releases call env.token) calls
    → Every (λ call. ¬ Removes call k) calls
    → ¬ IsClaimed
        (claim_approved_for_send env' owner' k
          (run calls (claim_approved_for_send env owner k q).0)).1
at_most_one_claim env env' owner owner' k x q calls v h n c keeps stays again =
    let (ans, found) = claim_approved_for_send_lem env owner k x q v h in
    let active = claim_edit-claimed owner env x n (subst IsClaimed ans c) in
    let q1 = (claim_approved_for_send env owner k q).0 in
    let v1 : IsValid q1 = unfold step in (step-Steps env (claims owner k) q v).1 in
    let (y, there, spent) =
      run-keeps (Spent env.token) (λ call. ¬ Releases call env.token)
        (λ call a b keep. Spent-Move env.token call a b keep) calls k _ q1 v1 keeps stays found
        (held _ active refl) in
    let (ans', found') =
      claim_approved_for_send_lem env' owner' k y (run calls q1) (run-IsValid calls q1 v1) there in
    claim_edit-Spent env.token owner' env' y spent (subst IsClaimed ans' again)
