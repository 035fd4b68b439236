-- ===== src/ConfirmQueue/Claims.antt =====
-- The send claim (confirm_queue.py): `claim_approved_for_send` and `release_send_claim`.
use chatbot_win.Prelude.{String, Option, none, some, if◌then◌else◌, nonempty, ◌==◌, or_else}
use chatbot_win.ConfirmQueue.Item.{
  Status, approved, failed, Item, Claim, ResolvedClaim, Env, active_send_claim, status_eq,
  send_claim_owner_is_alive,
}
use chatbot_win.ConfirmQueue.Store.{
  Queue, Outcome, raised, key_error, claim_conflict, Edit, refuse, answer, write, read_all,
  edit_first, conclude, has_id,
}

-- `reason` of the result: the claim is taken, the item's status is no `approved`, a living process
-- holds the claim, or the owner has exited and the outcome of its send is unknown.
pub data ClaimReason : Type 0 where
  claimed send_claim_conflict send_claim_owner_exited : ClaimReason
  item_status_is : Status → ClaimReason

pub record ClaimResult : Type 0 where
  pub reason : ClaimReason
  pub token : String
  pub item : Item

abbrev pub owner_exited : String
owner_exited = "send_claim_owner_exited_outcome_unknown"

abbrev pub resolve : Claim → String → String → ResolvedClaim
resolve claim now resolution = record { claim = claim; resolved_at = now; resolution = resolution }

-- The claim of a dead owner is retired to `failed`, never taken over.
unfoldable pub retire : Env → Claim → Item → Item
retire env claim item = record item {
  send_claim = none;
  status = failed;
  reviewed_at = env.now;
  reviewer = "system";
  note = owner_exited;
  last_send_claim = some (resolve claim env.now owner_exited);
}

abbrev pub new_claim : Env → String → Claim
new_claim env owner = record {
  token = env.token;
  owner = or_else owner "send_approved_confirm_item";
  owner_pid = env.pid;
  owner_process_start = env.process_start_marker env.pid;
  claimed_at = env.now;
}

abbrev pub refusal : ClaimReason → Item → ClaimResult
refusal reason item = record { reason = reason; token = ""; item = item }

unfoldable pub claim_item : Env → String → Item → Option Claim → Edit ClaimResult
claim_item env owner item none =
    let held = record item { send_claim = some (new_claim env owner) } in
    write held (record { reason = claimed; token = env.token; item = held })
claim_item env owner item (some existing) =
    if send_claim_owner_is_alive env existing
    then answer (refusal send_claim_conflict item)
    else write (retire env existing item)
        (refusal send_claim_owner_exited (retire env existing item))

unfoldable pub claim_edit : Env → String → Item → Edit ClaimResult
claim_edit env owner item =
    if status_eq item.status approved
    then claim_item env owner item (active_send_claim item)
    else answer (refusal (item_status_is item.status) item)

unfoldable pub claim_approved_for_send : Env → String → String → Queue → Queue × Outcome ClaimResult
claim_approved_for_send env owner queue_id q =
    conclude env (raised key_error) q
      (edit_first (has_id queue_id) (claim_edit env owner) (read_all q))

-- `_require_send_claim`: none where the code raises.
unfoldable pub require_send_claim : Item → String → Option Claim
require_send_claim item token = elim (active_send_claim item) [
  | none ↦ none
  | some claim ↦
      if nonempty token then (if token == claim.token then some claim else none) else none
]

unfoldable pub release_item : Env → String → Item → Option Claim → Edit Item
release_item env reason item none = refuse claim_conflict
release_item env reason item (some claim) =
    let released = record item {
      send_claim = none;
      last_send_claim = some (resolve claim env.now (or_else reason "send_claim_released"));
    } in
    write released released

unfoldable pub release_edit : Env → String → String → Item → Edit Item
release_edit env token reason item =
    if status_eq item.status approved
    then release_item env reason item (require_send_claim item token)
    else refuse claim_conflict

unfoldable pub release_send_claim : Env → String → String → String → Queue → Queue × Outcome Item
release_send_claim env queue_id token reason q =
    conclude env (raised key_error) q
      (edit_first (has_id queue_id) (release_edit env token reason) (read_all q))
