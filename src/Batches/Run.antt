-- ===== src/Batches/Run.antt =====
-- The loop of `process_batch` (conversation_scheduler.py) as a transition system: which handler ends
-- first, and with what, is the environment's choice. `I` is what a handler returns.
use chatbot_win.Prelude.{
  ℕ, String, Option, none, some, List, [], ◌∷◌, ◌++◌, ◌+◌, ◌<◌, ◌≤◌, ◌≡◌, ◌⊎◌, inl, inr, max,
  length, Dict, get_or, put,
}
use chatbot_win.Batches.Defer.{Raw, Readers}
use chatbot_win.Batches.Group.{group, queues_of}

-- The item of a handler that raised.
pub record ErrorItem : Type 0 where
  pub error_type : String
  pub error_message : String
  pub raw_id : String
  pub chat_title : String
  pub conversation_id : String

-- `future.result()`
pub data Outcome (I : Type 0) : Type 0 where
  returned : Option I → Outcome I
  raised : String → String → Outcome I

pub record Job : Type 0 where
  pub conversation_id : String
  pub raw : Raw

-- Whether the loop submits, or takes what `wait` gave it.
pub data Phase : Type 0 where
  filling draining : Phase

pub record Batch (I : Type 0) : Type 0 where
  pub phase : Phase
  pub pending : List String
  pub queues : Dict (List Raw)
  pub running : List Job
  pub processed : List (I ⊎ ErrorItem)
  pub max_running_seen : ℕ

abbrev pub queue_of : String → Dict (List Raw) → List Raw
queue_of c queues = get_or c [] queues

abbrev pub again : String → List Raw → List String
again c [] = []
again c (raw ∷ raws) = c ∷ []

module _ {I : Type 0} where
  abbrev pub submit_from : String → List String → List Raw → Batch I → Batch I
  submit_from c rest [] s = record s { pending = rest }
  submit_from c rest (raw ∷ raws) s = record s {
    pending = rest;
    queues = put c raws s.queues;
    running = s.running ++ record { conversation_id = c; raw = raw } ∷ [];
    max_running_seen = max s.max_running_seen (length s.running + 1);
  }

  -- A round of the inner `while`.
  unfoldable pub submit : String → List String → Batch I → Batch I
  submit c rest s = submit_from c rest (queue_of c s.queues) s

  abbrev pub item_of : Job → Outcome I → List (I ⊎ ErrorItem)
  item_of job (returned none) = []
  item_of job (returned (some item)) = inl item ∷ []
  item_of job (raised error_type message) =
      inr (record {
        error_type = error_type;
        error_message = message;
        raw_id = job.raw.raw_id;
        chat_title = job.raw.chat_title;
        conversation_id = job.conversation_id;
      })
      ∷ []

  -- A round of the `for` over the futures that are done: of `before ++ job ∷ after` the job is done.
  unfoldable pub finish : List Job → Job → List Job → Outcome I → Batch I → Batch I
  finish before job after outcome s = record s {
    phase = draining;
    running = before ++ after;
    processed = s.processed ++ item_of job outcome;
    pending = s.pending ++ again job.conversation_id (queue_of job.conversation_id s.queues);
  }

  -- The inner `while` has ended.
  abbrev pub Filled : ℕ → Batch I → Type 0
  Filled limit s = (s.pending ≡ []) ⊎ (limit ≤ length s.running)

  pub data Step (limit : ℕ) (s : Batch I) (t : Batch I) : Type 0 where
    submits :
        (c : String) (rest : List String)
        → s.phase ≡ filling
        → s.pending ≡ c ∷ rest
        → length s.running < limit
        → t ≡ submit c rest s
        → Step limit s t
    -- the first future that `wait` gives
    finishes :
        (before : List Job) (job : Job) (after : List Job) (outcome : Outcome I)
        → s.phase ≡ filling
        → Filled limit s
        → s.running ≡ before ++ job ∷ after
        → t ≡ finish before job after outcome s
        → Step limit s t
    -- a further one of the same `wait`
    finishes_also :
        (before : List Job) (job : Job) (after : List Job) (outcome : Outcome I)
        → s.phase ≡ draining
        → s.running ≡ before ++ job ∷ after
        → t ≡ finish before job after outcome s
        → Step limit s t
    refills : s.phase ≡ draining → t ≡ record s { phase = filling } → Step limit s t

  -- The condition of the outer `while` fails.
  pub record Ended (s : Batch I) : Type 0 where
    pub phase_filling : s.phase ≡ filling
    pub none_pending : s.pending ≡ []
    pub none_running : s.running ≡ []

unfoldable pub start_batch : {I : Type 0} → Readers → List Raw → Batch I
start_batch r messages = record {
  phase = filling;
  pending = (group r messages).order;
  queues = queues_of r (group r messages).grouped (group r messages).order;
  running = [];
  processed = [];
  max_running_seen = 0;
}
