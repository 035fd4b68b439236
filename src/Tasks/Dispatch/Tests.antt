-- ===== src/Tasks/Dispatch/Tests.antt =====
-- The task manager on concrete records (tasks/manager.py), and its theorems applied to them.
use chatbot_win.Prelude.{
  String, true, false, ◌&&◌, List, [], ◌∷◌, ◌≤◌, ◌≡◌, refl, arith, max, count, length, All, get_or,
}
use chatbot_win.Tasks.Record.{queued, running, Task, mutex_scope, completed_task_ids}
use chatbot_win.Tasks.Dispatch.{resource_limit, schedule, eligible, has_room, first_round}
use chatbot_win.Tasks.Samples.{some_task, records, clock, call}
use chatbot_win.Tasks.Dispatch.Counts.{runs_on, runs_in, runs_under}
use chatbot_win.Tasks.Dispatch.Pending.{Distinct}
use chatbot_win.Tasks.Dispatch.Limits.{
  schedule-resource_limit, schedule-per_channel, schedule-mutex_scope,
}
use chatbot_win.Tasks.Dispatch.Claimed.{Origin, schedule-claimed, schedule-max_claims}
use chatbot_win.Tasks.Dispatch.Records.{Fate, schedule-Fate}
use chatbot_win.Tasks.Record.{Task, queued}
use chatbot_win.Tasks.Dispatch.Idle.{schedule-idle}
use chatbot_win.Tasks.Dispatch.{claim_loop, try_claim, claim_round, claim_task}
use chatbot_win.Tasks.Scores.{
  sort_by, dispatch_priority_score, channel_control_blocks, channel_priority_bonus, insert_by,
  task_priority_score,
}
use chatbot_win.Prelude.{strip, get, put, add, is_space, lstrip, rstrip, starts_with}
use chatbot_win.Tasks.Record.{
  active_by_resource, active_by_conversation, active_concurrency_keys, default_resource_limit,
  dependencies_satisfied, replace,
}
use chatbot_win.Tasks.Merge.{apply_patch, merge_task, stamp}

abbrev ids : List Task → List String
ids [] = []
ids (t ∷ ts) = t.task_id ∷ ids ts

-- Of the conversation's two tasks only the one that is more urgent is claimed.
claims_c : ids (schedule clock call records).claimed ≡ "c" ∷ []
unfolding schedule claim_loop sort_by dispatch_priority_score strip get completed_task_ids try_claim
    first_round eligible channel_control_blocks has_room get_or active_by_resource put
    resource_limit active_by_conversation mutex_scope add is_space lstrip rstrip starts_with
    claim_round claim_task apply_patch merge_task stamp active_concurrency_keys
    default_resource_limit dependencies_satisfied replace channel_priority_bonus insert_by
    task_priority_score
claims_c = refl

records-Distinct : Distinct records
records-Distinct = ((refl, (refl, (refl, tt))), ((refl, (refl, tt)), ((refl, tt), (tt, tt))))

schedule-resource_limit_example :
    count (runs_on "llm") (schedule clock call records).tasks
    ≤ max (resource_limit call "llm") (count (runs_on "llm") records)
schedule-resource_limit_example = schedule-resource_limit clock call records "llm" records-Distinct

schedule-per_channel_example :
    count (runs_in "room-2") (schedule clock call records).tasks
    ≤ max call.per_channel (count (runs_in "room-2") records)
schedule-per_channel_example =
    schedule-per_channel clock call records "room-2" records-Distinct refl

chat_excludes : mutex_scope "chat:room-2" ≡ true
unfolding mutex_scope strip starts_with
chat_excludes = refl

schedule-mutex_scope_example :
    count (runs_under "chat:room-2") (schedule clock call records).tasks
    ≤ max 1 (count (runs_under "chat:room-2") records)
schedule-mutex_scope_example =
    schedule-mutex_scope clock call records "chat:room-2" records-Distinct chat_excludes

schedule-claimed_example : All (Origin clock call records) (schedule clock call records).claimed
schedule-claimed_example = schedule-claimed clock call records records-Distinct

schedule-max_claims_example : length (schedule clock call records).claimed ≤ 4
schedule-max_claims_example = schedule-max_claims clock call records records-Distinct

-- Only the task that waits for the running one is left.
abbrev held_back : List Task
held_back =
    some_task "a" "room-1" running 50 [] "chat:room-1"
    ∷ some_task "d" "room-3" queued 90 ("a" ∷ []) ""
    ∷ []

nothing_claimed : (schedule clock call held_back).claimed ≡ []
unfolding schedule claim_loop sort_by dispatch_priority_score strip get completed_task_ids try_claim
    first_round eligible channel_control_blocks
nothing_claimed = refl

schedule-idle_example :
    All
      (λ t.
        eligible clock call (completed_task_ids held_back) t
          && has_room call (first_round held_back) t
        ≡ false)
      held_back
schedule-idle_example = schedule-idle clock call held_back (omega arith) nothing_claimed

abbrev urgent : Task
urgent = some_task "c" "room-2" queued 60 [] "chat:room-2"

schedule-Fate_example : Fate clock call records "c" urgent (schedule clock call records)
schedule-Fate_example = schedule-Fate clock call records "c" urgent records-Distinct refl
