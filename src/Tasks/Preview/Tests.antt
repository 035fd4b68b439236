-- ===== src/Tasks/Preview/Tests.antt =====
-- The preview of the sample records, and its theorem applied to them.
use chatbot_win.Prelude.{◌≡◌, refl, arith}
use chatbot_win.Tasks.Dispatch.{schedule}
use chatbot_win.Tasks.Preview.{preview_tasks}
use chatbot_win.Tasks.Preview.Agrees.{claims_of, schedule-preview_tasks}
use chatbot_win.Tasks.Samples.{records, clock, call}

schedule-preview_tasks_example :
    (schedule clock call records).claimed
    ≡ claims_of clock call (preview_tasks clock call records).runnable
schedule-preview_tasks_example = schedule-preview_tasks clock call records refl (omega arith)
