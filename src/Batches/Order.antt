-- ===== src/Batches/Order.antt =====
-- In which order the messages of a conversation are handled (conversation_scheduler.py).
use chatbot_win.Prelude.{
  length, ℕ, String, true, false, List, [], ◌∷◌, ◌++◌, ◌+◌, ◌<◌, ◌≤◌, ◌≡◌, refl, sym, ap, subst,
  ◌∙◌, inl, inr, arith, count, get_or-put, ◌==◌, eq_iff, if◌then◌else◌, Bool-cases,
}
use chatbot_win.Batches.Defer.{Raw, Readers, defer_non_latest_live_messages}
use chatbot_win.Batches.Run.{
  Job, Batch, Outcome, queue_of, submit_from, submit, finish, Step, submits, finishes,
  finishes_also, refills, Ended, start_batch,
}
use chatbot_win.Batches.Limits.{
  Reach-limit, Reach, here, next, load, load-submit, load-finish, Reach-load, is_empty,
  in_conversation, loss, one_if,
}
use chatbot_win.Batches.Grouped.{
  entries_of, queue_of-start_batch, load-start_batch, waits-start_batch,
}

abbrev head_job : String → List Raw → List Job
head_job c [] = []
head_job c (raw ∷ raws) = record { conversation_id = c; raw = raw } ∷ []

module _ {I : Type 0} where
  -- The job that a step hands to its handler.
  unfoldable pub submitted : (limit : ℕ) (s t : Batch I) → Step limit s t → List Job
  submitted limit s t (submits c rest f p b e) = head_job c (queue_of c s.queues)
  submitted limit s t (finishes before job after outcome f d r e) = []
  submitted limit s t (finishes_also before job after outcome f r e) = []
  submitted limit s t (refills f e) = []

  -- The jobs that were handed over, in order.
  unfoldable pub log : (limit : ℕ) (first t : Batch I) → Reach limit first t → List Job
  unfolding submitted
  log limit first t here = []
  log limit first t (next {s} r st) = log limit first s r ++ submitted limit s t st

abbrev pub raws_in : String → List Job → List Raw
raws_in c [] = []
raws_in c (job ∷ jobs) =
    if job.conversation_id == c then job.raw ∷ raws_in c jobs else raws_in c jobs

raws_in-append :
    (c : String) (xs ys : List Job) → raws_in c (xs ++ ys) ≡ raws_in c xs ++ raws_in c ys
raws_in-append c [] ys = refl
raws_in-append c (x ∷ xs) ys = elim (Bool-cases (x.conversation_id == c)) [
  | inl e ↦ rw (e, raws_in-append c xs ys) refl
  | inr e ↦ rw (e, raws_in-append c xs ys) refl
]

append_assoc : (xs ys zs : List Raw) → xs ++ ys ++ zs ≡ xs ++ (ys ++ zs)
append_assoc [] ys zs = refl
append_assoc (x ∷ xs) ys zs = ap (λ l. x ∷ l) (append_assoc xs ys zs)

append_nil : (xs : List Raw) → xs ++ [] ≡ xs
append_nil [] = refl
append_nil (x ∷ xs) = ap (λ l. x ∷ l) (append_nil xs)

module _ {I : Type 0} (limit : ℕ) (c : String) where
  submit_from-queue :
      (d : String) (rest : List String) (queue : List Raw) (s : Batch I)
      → queue_of d s.queues ≡ queue
      → raws_in c (head_job d queue) ++ queue_of c (submit_from d rest queue s).queues
        ≡ queue_of c s.queues
  submit_from-queue d rest [] s q = refl
  submit_from-queue d rest (raw ∷ raws) s q = rw get_or-put (elim (Bool-cases (d == c)) [
    | inl e ↦ rw (e, sym ((eq_iff d c).0 e)) (sym q)
    | inr e ↦ rw e refl
  ])

  -- What a step hands over is taken off the front of its queue.
  Step-queue :
      (s t : Batch I) (st : Step limit s t)
      → raws_in c (submitted limit s t st) ++ queue_of c t.queues ≡ queue_of c s.queues
  unfolding submitted submit finish
  Step-queue s t (submits d rest f p b e) =
      rw e (submit_from-queue d rest (queue_of d s.queues) s refl)
  Step-queue s t (finishes before job after outcome f d r e) = ap (λ u. queue_of c u.queues) e
  Step-queue s t (finishes_also before job after outcome f r e) = ap (λ u. queue_of c u.queues) e
  Step-queue s t (refills f e) = ap (λ u. queue_of c u.queues) e

  log-queue :
      (first t : Batch I) (r : Reach limit first t)
      → raws_in c (log limit first t r) ++ queue_of c t.queues ≡ queue_of c first.queues
  unfolding log
  log-queue first t here = refl
  log-queue first t (next {s} r st) = rw raws_in-append (
      append_assoc (raws_in c (log limit first s r)) (raws_in c (submitted limit s t st))
        (queue_of c t.queues)
      ∙ ap (λ q. raws_in c (log limit first s r) ++ q) (Step-queue s t st)
      ∙ log-queue first s r)

  -- A conversation with a message left waits or runs.
  abbrev Waits : Batch I → Type 0
  Waits s = is_empty (queue_of c s.queues) ≡ false → 0 < load c s

  submit_from-Waits :
      (d : String) (rest : List String) (queue : List Raw) (s : Batch I)
      → queue_of d s.queues ≡ queue
      → load c (submit_from d rest queue s) + loss c d queue ≡ load c s
      → Waits s
      → Waits (submit_from d rest queue s)
  submit_from-Waits d rest [] s q e w h = elim (Bool-cases (d == c)) [
    | inl f ↦ absurd (cc (rw (sym ((eq_iff d c).0 f), q) at h))
    | inr f ↦ omega (arith, w h, ap (λ b. one_if b) f)
  ]
  submit_from-Waits d rest (raw ∷ raws) s q e w h = elim (Bool-cases (d == c)) [
    | inl f ↦ omega (arith, w (rw (sym ((eq_iff d c).0 f), q) refl))
    | inr f ↦ omega (arith, w (rw (get_or-put, f) at h))
  ]

  finish-Waits :
      (before : List Job) (job : Job) (after : List Job) (outcome : Outcome I) (s : Batch I)
      → s.running ≡ before ++ job ∷ after
      → Waits s
      → Waits (finish before job after outcome s)
  unfolding finish
  finish-Waits before job after outcome s r w h =
      let eq = load-finish c before job after outcome s r in
      elim (Bool-cases (job.conversation_id == c)) [
        | inl f ↦
            let same = (eq_iff job.conversation_id c).0 f in
            let left : is_empty (queue_of job.conversation_id s.queues) ≡ false = rw same h in
            let no_loss : loss c job.conversation_id (queue_of job.conversation_id s.queues) ≡ 0 =
              rw left refl in
            omega (arith, w h)
        | inr f ↦
            let no_loss : loss c job.conversation_id (queue_of job.conversation_id s.queues) ≡ 0 =
              ground (arith, f) in
            omega (arith, w h)
      ]

  Step-Waits : (s t : Batch I) → Step limit s t → Waits s → Waits t
  unfolding submit
  Step-Waits s t (submits d rest f p b e) w =
      subst Waits (sym e)
        (submit_from-Waits d rest (queue_of d s.queues) s refl (load-submit c d rest s p) w)
  Step-Waits s t (finishes before job after outcome f d r e) w =
      subst Waits (sym e) (finish-Waits before job after outcome s r w)
  Step-Waits s t (finishes_also before job after outcome f r e) w =
      subst Waits (sym e) (finish-Waits before job after outcome s r w)
  Step-Waits s t (refills f e) w = subst Waits (sym e) w

  Reach-Waits : (first t : Batch I) → Reach limit first t → Waits first → Waits t
  Reach-Waits first t here w = w
  Reach-Waits first t (next {s} r st) w = Step-Waits s t st (Reach-Waits first s r w)

is_empty-nil : (queue : List Raw) → is_empty queue ≡ true → queue ≡ []
is_empty-nil [] h = refl
is_empty-nil (raw ∷ raws) h = cc

module _ (I : Type 0) (limit : ℕ) (r : Readers) (messages : List Raw) (t : Batch I)
    (reached : Reach limit (start_batch r messages) t) (c : String) where
  -- The handlers that run are for different conversations and at most `limit`, and the count that the
  -- batch reports is within the limit too.
  pub Reach-serial :
      (count (in_conversation c) t.running ≤ 1)
      × (length t.running ≤ limit)
      × (t.max_running_seen ≤ limit)
  Reach-serial =
      let bounds = Reach-limit I limit r messages t reached in
      let serial : count (in_conversation c) t.running ≤ 1 = omega (
        arith,
        Reach-load limit c (start_batch r messages) t reached,
        load-start_batch I c r messages,
      ) in
      (serial, bounds.0, bounds.1)

  -- When the batch has ended, the messages of each conversation were handed to the handler in the
  -- order of the batch, each once, and those deferred that must be.
  pub Ended-log :
      Ended t
      → raws_in c (log limit (start_batch r messages) t reached)
        ≡ defer_non_latest_live_messages r.is_reset_command (entries_of r c messages)
  Ended-log ended =
      let waits =
        Reach-Waits limit c (start_batch r messages) t reached (waits-start_batch I c r messages) in
      let idle : load c t ≡ 0 = omega (
        arith,
        ap (λ ks. count (λ k. k == c) ks) ended.none_pending,
        ap (λ js. count (in_conversation c) js) ended.none_running,
      ) in
      elim (Bool-cases (is_empty (queue_of c t.queues))) [
        | inr e ↦ absurd (omega (arith, waits e))
        | inl e ↦
            sym (append_nil (raws_in c (log limit (start_batch r messages) t reached)))
            ∙ ap (λ q. raws_in c (log limit (start_batch r messages) t reached) ++ q)
                (sym (is_empty-nil (queue_of c t.queues) e))
            ∙ log-queue limit c (start_batch r messages) t reached
            ∙ queue_of-start_batch I c r messages
      ]
