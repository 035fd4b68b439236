-- ===== src/Batches/Limits.antt =====
-- How many handlers run at once (conversation_scheduler.py), and for how many messages of a conversation.
use chatbot_win.Prelude.{
  ℕ, String, Bool, true, false, List, [], ◌∷◌, ◌++◌, ◌+◌, ◌<◌, ◌≤◌, ◌≡◌, ap, ◌∙◌, arith, length,
  length-append, count, count-append, ◌==◌, if◌then◌else◌,
}
use chatbot_win.Batches.Defer.{Raw, Readers}
use chatbot_win.Batches.Run.{
  Job, Batch, Outcome, queue_of, submit_from, submit, finish, again, Step, submits, finishes,
  finishes_also, refills, start_batch,
}

-- The states that the loop reaches from `first`.
pub data Reach {I : Type 0} (limit : ℕ) (first : Batch I) : Batch I → Type 0 where
  here : Reach limit first first
  next : {s t : Batch I} → Reach limit first s → Step limit s t → Reach limit first t

abbrev pub in_conversation : String → Job → Bool
in_conversation c job = job.conversation_id == c

-- How often the conversation waits or runs.
abbrev pub load : {I : Type 0} → String → Batch I → ℕ
load c s = count (λ k. k == c) s.pending + count (in_conversation c) s.running

abbrev pub is_empty : List Raw → Bool
is_empty [] = true
is_empty (raw ∷ raws) = false

abbrev pub one_if : Bool → ℕ
one_if b = if b then 1 else 0

-- What a conversation loses by a step that finds the queue of `d`.
abbrev pub loss : String → String → List Raw → ℕ
loss c d queue = if is_empty queue then one_if (d == c) else 0

count-again :
    (c d : String) (queue : List Raw)
    → count (λ k. k == c) (again d queue) + loss c d queue ≡ one_if (d == c)
count-again c d [] = omega arith
count-again c d (raw ∷ raws) = omega arith

module _ {I : Type 0} (c : String) where
  pub load-finish :
      (before : List Job) (job : Job) (after : List Job) (outcome : Outcome I) (s : Batch I)
      → s.running ≡ before ++ job ∷ after
      → load c (finish before job after outcome s)
          + loss c job.conversation_id (queue_of job.conversation_id s.queues)
        ≡ load c s
  unfolding finish
  load-finish before job after outcome s e =
      let all =
        ap (λ js. count (in_conversation c) js) e
        ∙ count-append (in_conversation c) before (job ∷ after) in
      rw (count-append (in_conversation c) before after, count-append)
        (omega (arith, count-again c job.conversation_id (queue_of job.conversation_id s.queues)))

  load-submit_from :
      (d : String) (rest : List String) (queue : List Raw) (s : Batch I)
      → s.pending ≡ d ∷ rest
      → load c (submit_from d rest queue s) + loss c d queue ≡ load c s
  load-submit_from d rest [] s e = let all = ap (λ ks. count (λ k. k == c) ks) e in omega arith
  load-submit_from d rest (raw ∷ raws) s e =
      let all = ap (λ ks. count (λ k. k == c) ks) e in rw count-append (omega arith)

  pub load-submit :
      (d : String) (rest : List String) (s : Batch I)
      → s.pending ≡ d ∷ rest
      → load c (submit d rest s) + loss c d (queue_of d s.queues) ≡ load c s
  unfolding submit
  load-submit d rest s e = load-submit_from d rest (queue_of d s.queues) s e

-- What a state keeps: the counts are within their bounds.
record Within {I : Type 0} (limit : ℕ) (s : Batch I) : Type 0 where
  pub now : length s.running ≤ limit
  pub seen : s.max_running_seen ≤ limit

module _ {I : Type 0} (limit : ℕ) where
  submit_from-Within :
      (d : String) (rest : List String) (queue : List Raw) (s : Batch I)
      → length s.running < limit
      → Within limit s
      → Within limit (submit_from d rest queue s)
  submit_from-Within d rest [] s b w = record { now = w.now; seen = w.seen }
  submit_from-Within d rest (raw ∷ raws) s b w = record {
    now = rw length-append (omega arith);
    seen = omega (arith, w.seen);
  }

  submit-Within :
      (d : String) (rest : List String) (s : Batch I)
      → length s.running < limit
      → Within limit s
      → Within limit (submit d rest s)
  unfolding submit
  submit-Within d rest s b w = submit_from-Within d rest (queue_of d s.queues) s b w

  finish-Within :
      (before : List Job) (job : Job) (after : List Job) (outcome : Outcome I) (s : Batch I)
      → s.running ≡ before ++ job ∷ after
      → Within limit s
      → Within limit (finish before job after outcome s)
  unfolding finish
  finish-Within before job after outcome s e w =
      let all = ap (λ js. length js) e ∙ length-append before (job ∷ after) in
      record { now = rw length-append (omega (arith, w.now)); seen = w.seen }

  Step-Within : (s t : Batch I) → Within limit s → Step limit s t → Within limit t
  Step-Within s t w (submits c rest f p b e) = rw e (submit-Within c rest s b w)
  Step-Within s t w (finishes before job after outcome f d r e) =
      rw e (finish-Within before job after outcome s r w)
  Step-Within s t w (finishes_also before job after outcome f r e) =
      rw e (finish-Within before job after outcome s r w)
  Step-Within s t w (refills f e) = rw e (record { now = w.now; seen = w.seen })

  Step-load : (c : String) (s t : Batch I) → Step limit s t → load c t ≤ load c s
  Step-load c s t (submits d rest f p b e) = rw e (omega (arith, load-submit c d rest s p))
  Step-load c s t (finishes before job after outcome f d r e) =
      rw e (omega (arith, load-finish c before job after outcome s r))
  Step-load c s t (finishes_also before job after outcome f r e) =
      rw e (omega (arith, load-finish c before job after outcome s r))
  Step-load c s t (refills f e) = rw e (omega arith)

  Reach-Within : (first t : Batch I) → Within limit first → Reach limit first t → Within limit t
  Reach-Within first t w here = w
  Reach-Within first t w (next {s} r st) = Step-Within s t (Reach-Within first s w r) st

  pub Reach-load : (c : String) (first t : Batch I) → Reach limit first t → load c t ≤ load c first
  Reach-load c first t here = omega arith
  Reach-load c first t (next {s} r st) = omega (arith, Step-load c s t st, Reach-load c first s r)

-- At most `limit` handlers run at once, and the count that the batch reports is within the limit too.
pub Reach-limit :
    (I : Type 0) (limit : ℕ) (r : Readers) (messages : List Raw) (t : Batch I)
    → Reach limit (start_batch r messages) t
    → (length t.running ≤ limit) × (t.max_running_seen ≤ limit)
unfolding start_batch
Reach-limit I limit r messages t reached =
    let w =
      Reach-Within limit (start_batch r messages) t
        (record { now = omega arith; seen = omega arith }) reached in
    (w.now, w.seen)
