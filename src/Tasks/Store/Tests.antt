-- ===== src/Tasks/Store/Tests.antt =====
-- The store's operations on the sample records, and their theorems applied to them.
use chatbot_win.Prelude.{
  String, List, true, some, [], ◌∷◌, ◌≡◌, ◌≤◌, refl, nonempty, strip, lstrip, rstrip, is_space,
  count, length,
}
use chatbot_win.Tasks.Record.{completed, queued, running, Task}
use chatbot_win.Tasks.Scores.{Env}
use chatbot_win.Tasks.Merge.{Patch, no_patch, apply_patch, stamp, merge_task}
use chatbot_win.Tasks.Samples.{some_task, records, clock}
use chatbot_win.Tasks.Store.{with_status, is_active_of, create, finish_external}
use chatbot_win.Tasks.Dispatch.Pending.{Distinct}
use chatbot_win.Tasks.Store.Identities.{create-Distinct}
use chatbot_win.Tasks.Store.Finished.{finish_external-active, merge_each, merge_each-finished}

abbrev done_patch : Patch
done_patch = record no_patch { status = some completed; progress = some 250 }

abbrev job : Task
job = record (some_task "j" "" running 50 [] "") { external_id = "job-1" }

plain : nonempty (strip "job-1") ≡ true
unfolding strip lstrip rstrip is_space
plain = refl

finish_external-active_example :
    (count
        (is_active_of (strip "job-1"))
        (finish_external clock (λ ts. ts) "job-1" done_patch (job ∷ records))
      ≡ 0)
    × (length (finish_external clock (λ ts. ts) "job-1" done_patch (job ∷ records)) ≤ 500)
finish_external-active_example =
    finish_external-active clock (λ ts. ts) "job-1" done_patch completed (job ∷ records) plain refl
      refl

-- The task ends, is resumed, and ends again at a later clock.
abbrev later : String → Env
later now = record clock { now_iso = now }

abbrev resumed : List (Env × Patch)
resumed =
    (later "2026-01-02T00:00:00", record no_patch { status = some queued })
    ∷ (later "2026-01-03T00:00:00", done_patch)
    ∷ []

merge_each-finished_example :
    ((merge_each ((clock, done_patch) ∷ resumed) job).finished_at ≡ clock.now_iso)
    × (nonempty job.started_at ≡ true
        → (merge_each ((clock, done_patch) ∷ resumed) job).started_at ≡ job.started_at)
    × (job.progress ≤ 100 → (merge_each ((clock, done_patch) ∷ resumed) job).progress ≤ 100)
merge_each-finished_example =
    merge_each-finished clock done_patch completed job resumed refl refl refl refl
      ((refl, refl), ((refl, refl), ((refl, refl), tt)))

-- A status text that names none leaves the status as it is, whatever the action.
odd_status :
    (merge_task clock job
      (with_status completed (record no_patch { names_no_status = true }))).status
    ≡ running
unfolding merge_task apply_patch stamp
odd_status = refl

records-Distinct : Distinct records
records-Distinct = ((refl, (refl, (refl, tt))), ((refl, (refl, tt)), ((refl, tt), (tt, tt))))

create-Distinct_example : Distinct (create clock (λ ts. ts) "e" done_patch records).0
create-Distinct_example = create-Distinct clock (λ ts. ts) "e" done_patch records records-Distinct
