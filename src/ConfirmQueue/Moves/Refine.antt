-- ===== src/ConfirmQueue/Moves/Refine.antt =====
-- Every call of the confirmation queue refines the transition system (confirm_queue.py).
use chatbot_win.Prelude.{
  String, Bool, true, false, Option, none, some, List, ◌≡◌, ◌≢◌, refl, arith, is_some, Bool-cases,
  ◌⊎◌, inl, inr, nonempty,
}
use chatbot_win.ConfirmQueue.Item.{
  Status, approved, rejected, Claim, Item, Env, active_send_claim, status_eq, status_eq-eq,
  validate_transition, send_claim_owner_is_alive,
}
use chatbot_win.ConfirmQueue.Store.{write}
use chatbot_win.ConfirmQueue.Claims.{
  retire, new_claim, claim_item, claim_edit, require_send_claim, release_item, release_edit,
  ClaimResult,
}
use chatbot_win.ConfirmQueue.Review.{Review, reviewed, is_send_status, fenced, transition_edit}
use chatbot_win.ConfirmQueue.Bridge.{Update, apply_updater, update_edit}
use chatbot_win.ConfirmQueue.Retry.{Stamp, item_with_retry, retry_edit}
use chatbot_win.ConfirmQueue.Moves.Calls.{Call, releases, Leaves}

-- The tokens that a call gives back.
abbrev pub Releases : Call → String → Type 0
Releases (releases k token reason) t = token ≡ t
Releases _ t = ⊥

-- What one call may do to one record.
pub data Move (call : Call) (x y : Item) : Type 0 where
  -- an approved record that nobody holds is claimed
  claim :
      (env : Env) (owner : String)
      → x.status ≡ approved
      → active_send_claim x ≡ none
      → y ≡ record x { send_claim = some (new_claim env owner) }
      → Move call x y
  -- the claim of a process that is gone is retired
  expire :
      (env : Env) (c : Claim)
      → x.status ≡ approved
      → active_send_claim x ≡ some c
      → send_claim_owner_is_alive env c ≡ false
      → y ≡ retire env c x
      → Move call x y
  -- the holder gives the claim back
  release :
      (token : String) (c : Claim)
      → Releases call token
      → x.status ≡ approved
      → require_send_claim x token ≡ some c
      → y.status ≡ x.status
      → y.queue_id ≡ x.queue_id
      → y.send_claim ≡ none
      → Move call x y
  -- a review or a send result, by the holder if the record is claimed
  review :
      (env : Env) (r : Review) (token : String)
      → (nonempty token ≡ false) ⊎ (is_send_status r.status ≡ true)
      → fenced x token ≡ false
      → validate_transition x.status r.status ≡ true
      → y ≡ reviewed env r (active_send_claim x) x
      → Move call x y
  -- an ack from the bridge, of a record that nobody holds
  ack :
      active_send_claim x ≡ none
      → validate_transition x.status y.status ≡ true
      → y.queue_id ≡ x.queue_id
      → y.send_claim ≡ x.send_claim
      → Move call x y
  -- a retry over the bridge, of a record that nobody holds and that is not rejected
  retry :
      (old : List String) (new : String) (stamp : Stamp) (reviewer : String)
      → active_send_claim x ≡ none
      → x.status ≢ rejected
      → y ≡ item_with_retry old new stamp reviewer x
      → Move call x y

claim_item-some :
    (env : Env) (owner : String) (x y : Item) (c : Claim) (a : ClaimResult)
    → claim_item env owner x (some c) ≡ write y a
    → (send_claim_owner_is_alive env c ≡ false) × (y ≡ retire env c x)
unfolding claim_item
claim_item-some env owner x y c a h = ground arith

claim_item-Move :
    (call : Call) (env : Env) (owner : String) (x y : Item) (a : ClaimResult)
    → x.status ≡ approved
    → (c : Option Claim) → active_send_claim x ≡ c
    → claim_item env owner x c ≡ write y a
    → Move call x y
unfolding claim_item
claim_item-Move call env owner x y a ok none e h = claim env owner ok e (ground arith)
claim_item-Move call env owner x y a ok (some c) e h =
    let (dead, same) = claim_item-some env owner x y c a h in expire env c ok e dead same

pub claim_edit-Move :
    (call : Call) (env : Env) (owner : String) (x y : Item) (a : ClaimResult)
    → claim_edit env owner x ≡ write y a
    → Move call x y
unfolding claim_edit
claim_edit-Move call env owner x y a h = elim (Bool-cases (status_eq x.status approved)) [
  | inr other ↦ cc (rw other at h)
  | inl ok ↦ claim_item-Move call env owner x y a (status_eq-eq _ _ ok) _ refl (rw ok at h)
]

release_item-Move :
    (k : String) (env : Env) (token reason : String) (x y a : Item)
    → x.status ≡ approved
    → (c : Option Claim) → require_send_claim x token ≡ c
    → release_item env reason x c ≡ write y a
    → Move (releases k token reason) x y
unfolding release_item
release_item-Move k env token reason x y a ok none e h = cc
release_item-Move k env token reason x y a ok (some c) e h =
    release token c refl ok e (ground arith) (ground arith) (ground arith)

pub release_edit-Move :
    (k : String) (env : Env) (token reason : String) (x y a : Item)
    → release_edit env token reason x ≡ write y a
    → Move (releases k token reason) x y
unfolding release_edit
release_edit-Move k env token reason x y a h = elim (Bool-cases (status_eq x.status approved)) [
  | inr other ↦ cc (rw other at h)
  | inl ok ↦ release_item-Move k env token reason x y a (status_eq-eq _ _ ok) _ refl (rw ok at h)
]

pub transition_edit-inv :
    (env : Env) (r : Review) (token : String) (x y a : Item)
    → transition_edit env r token x ≡ write y a
    → (fenced x token ≡ false)
      × (validate_transition x.status r.status ≡ true)
      × (y ≡ reviewed env r (active_send_claim x) x)
unfolding transition_edit
transition_edit-inv env r token x y a h = ground arith

pub transition_edit-Move :
    (call : Call) (env : Env) (r : Review) (token : String) (x y a : Item)
    → (nonempty token ≡ false) ⊎ (is_send_status r.status ≡ true)
    → transition_edit env r token x ≡ write y a
    → Move call x y
transition_edit-Move call env r token x y a u h =
    let (f, v, e) = transition_edit-inv env r token x y a h in review env r token u f v e

is_some-none {ℓ} : {A : Type ℓ} (o : Option A) → is_some o ≡ false → o ≡ none
is_some-none none h = refl
is_some-none (some a) h = cc

apply_updater-inv :
    (same : Item → Item → Bool) (x y : Item) (o : Option Item) (a : Update)
    → apply_updater same x o ≡ write y a
    → (o ≡ some y) × (validate_transition x.status y.status ≡ true)
unfolding apply_updater
apply_updater-inv same x y none a h = cc
apply_updater-inv same x y (some z) a h = ground arith

pub update_edit-Move :
    (call : Call) (same : Item → Item → Bool) (updater : Item → Option Item) (x y : Item)
    (a : Update)
    → Leaves updater
    → update_edit same updater x ≡ write y a
    → Move call x y
unfolding update_edit
update_edit-Move call same updater x y a leaves h =
    elim (Bool-cases (is_some (active_send_claim x))) [
      | inl held ↦ cc (rw held at h)
      | inr free ↦
          let (e, v) = apply_updater-inv same x y (updater x) a (rw free at h) in
          let (i, c) = leaves x y e in ack (is_some-none _ free) v i c
    ]

retry_edit-inv :
    (old : List String) (new : String) (stamp : Stamp) (reviewer : String) (x y : Item)
    (a : Option Item)
    → retry_edit old new stamp reviewer x ≡ write y a
    → (is_some (active_send_claim x) ≡ false)
      × (status_eq x.status rejected ≡ false)
      × (y ≡ item_with_retry old new stamp reviewer x)
unfolding retry_edit
retry_edit-inv old new stamp reviewer x y a h = ground arith

not_rejected : (s : Status) → status_eq s rejected ≡ false → s ≢ rejected
unfolding status_eq
not_rejected s h e = ground arith

pub retry_edit-Move :
    (call : Call) (old : List String) (new : String) (stamp : Stamp) (reviewer : String)
    (x y : Item) (a : Option Item)
    → retry_edit old new stamp reviewer x ≡ write y a
    → Move call x y
retry_edit-Move call old new stamp reviewer x y a h =
    let (free, open_, e) = retry_edit-inv old new stamp reviewer x y a h in
    retry old new stamp reviewer (is_some-none _ free) (not_rejected _ open_) e
