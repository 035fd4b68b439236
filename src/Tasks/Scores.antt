-- ===== src/Tasks/Scores.antt =====
-- The order of dispatch (tasks/manager.py): `task_priority_score`, the channel controls and
-- `_dispatch_priority_score`. Scores are floats in the code; here they are counted in units of
-- 1/60000000, that is, microseconds of age, and the dispatch score is shifted up by 100 so that it is
-- never negative.
use chatbot_win.Prelude.{
  ℕ, String, Bool, true, false, ◌&&◌, Option, none, some, List, [], ◌∷◌, ◌+◌, ◌-◌, ◌*◌, min, nat_eq,
  ltb, if◌then◌else◌, nonempty, strip, get, Dict, keep,
}
use chatbot_win.Tasks.Record.{
  Status, queued, running, waiting, paused, blocked, completed, failed, cancelled, Task, status_eq,
  dependencies_satisfied,
}

pub data ControlMode : Type 0 where
  active paused_mode muted snoozed : ControlMode

-- The `control` of a channel, as `_load_channel_controls` normalizes it: `priority` within 0..100.
pub record Control : Type 0 where
  pub mode : ControlMode
  pub priority : ℕ
  pub pinned : Bool
  pub snoozed_until : String

-- The clock in microseconds, its text, and the library's reading of ISO times (0 where it fails in
-- `_epoch`, none where it fails in `snooze_is_active`).
pub record Env : Type 0 where
  pub time : ℕ
  pub now_iso : String
  pub epoch : String → ℕ
  pub parse_iso : String → Option ℕ

abbrev pub unit : ℕ
unit = 60000000

abbrev pub status_weight : Status → ℕ
status_weight running = 500
status_weight queued = 420
status_weight waiting = 360
status_weight blocked = 300
status_weight paused = 260
status_weight failed = 120
status_weight cancelled = 80
status_weight completed = 40

abbrev or_zero : ℕ → ℕ → ℕ
or_zero a b = if nat_eq a 0 then b else a

abbrev pub has_items {ℓ} : {A : Type ℓ} → List A → Bool
has_items [] = false
has_items (x ∷ xs) = true

-- `task_priority_score`
unfoldable pub task_priority_score : Env → Task → ℕ
task_priority_score env t =
    let updated = or_zero (env.epoch t.updated_at) (env.epoch t.created_at) in
    let age_bonus = min (100 * unit) (env.time - updated) in
    let conversation_bonus = if nonempty t.conversation_id then 25 else 0 in
    let wait_penalty = if status_eq t.status paused then 180 else 0 in
    let dependency_penalty =
      if has_items t.dependencies && status_eq t.status queued then 120 else 0 in
    (status_weight t.status
        + t.priority * 2
        + conversation_bonus
        - wait_penalty
        - dependency_penalty)
      * unit
    + age_bonus

-- `_channel_priority_bonus`, shifted up by 100: without a control it is 0.
unfoldable pub channel_priority_bonus : Dict Control → Task → ℕ
channel_priority_bonus controls t =
    if nonempty (strip t.conversation_id)
    then bonus (get (strip t.conversation_id) controls)
    else 100
  where
    bonus : Option Control → ℕ
    bonus none = 100
    bonus (some c) = (if c.pinned then 180 else 0) + c.priority * 2

-- `_dispatch_priority_score`
unfoldable pub dispatch_priority_score : Env → Dict Control → List String → Task → ℕ
unfolding task_priority_score channel_priority_bonus dependencies_satisfied
dispatch_priority_score env controls completed_ids t =
    task_priority_score env t
    + channel_priority_bonus controls t * unit
    + (if has_items (keep (λ d. nonempty (strip d)) t.dependencies)
          && dependencies_satisfied t completed_ids
        then 120 * unit
        else 0)

-- `snooze_is_active` of conversation/channel_control.py
unfoldable pub snooze_is_active : Env → String → Bool
snooze_is_active env value =
    if nonempty (strip value) then later (env.parse_iso (strip value)) else true
  where
    later : Option ℕ → Bool
    later none = true
    later (some when) = ltb env.time when

abbrev blocks : Env → Option Control → Bool
blocks env none = false
blocks env (some c) = mode_blocks c.mode
  where
    mode_blocks : ControlMode → Bool
    mode_blocks paused_mode = true
    mode_blocks snoozed = snooze_is_active env c.snoozed_until
    mode_blocks _ = false

-- `_channel_control_block_reason`: whether there is one.
unfoldable pub channel_control_blocks : Env → Dict Control → String → Bool
unfolding snooze_is_active
channel_control_blocks env controls conversation_id =
    if nonempty (strip conversation_id)
    then blocks env (get (strip conversation_id) controls)
    else false

-- `sorted(tasks, key=score, reverse=True)`: stable, the highest first.
unfoldable pub insert_by : (Task → ℕ) → Task → List Task → List Task
insert_by score t [] = t ∷ []
insert_by score t (u ∷ us) =
    if ltb (score t) (score u) then u ∷ insert_by score t us else t ∷ u ∷ us

unfoldable pub sort_by : (Task → ℕ) → List Task → List Task
unfolding insert_by
sort_by score [] = []
sort_by score (t ∷ ts) = insert_by score t (sort_by score ts)
