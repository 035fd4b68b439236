-- ===== src/Batches/Ends.antt =====
-- The loop of `process_batch` (conversation_scheduler.py) does not get stuck and ends.
use chatbot_win.Prelude.{
  ℕ, String, none, List, [], ◌∷◌, ◌++◌, ◌+◌, ◌*◌, ◌<◌, ◌≤◌, ◌≡◌, ◌⊎◌, refl, ap, ◌∙◌, inl, inr,
  arith, length, length-append, Dict, get_or, put, ltb, Bool-cases,
}
use chatbot_win.Batches.Defer.{Raw, Readers}
use chatbot_win.Batches.Run.{
  Phase, filling, draining, Job, Batch, Outcome, returned, queue_of, submit_from, submit, finish,
  again, Step, submits, finishes, finishes_also, refills, Ended, start_batch,
}
use chatbot_win.Batches.Limits.{Reach, here, next}

abbrev pub queued : Dict (List Raw) → ℕ
queued [] = 0
queued ((c, queue) ∷ d) = length queue + queued d

abbrev phase_weight : Phase → ℕ
phase_weight filling = 0
phase_weight draining = 1

abbrev pub measure : {I : Type 0} → Batch I → ℕ
measure s = 3 * queued s.queues + length s.pending + 3 * length s.running + phase_weight s.phase

queued-put :
    (c : String) (v : List Raw) (d : Dict (List Raw))
    → queued (put c v d) + length (queue_of c d) ≡ queued d + length v
unfolding put get_or
queued-put c v [] = omega arith
queued-put c v ((k, w) ∷ d) = ground (arith, queued-put c v d)

length-again : (c : String) (queue : List Raw) → length (again c queue) ≤ 1
length-again c [] = omega arith
length-again c (raw ∷ raws) = omega arith

module _ {I : Type 0} (limit : ℕ) where
  submit_from-measure :
      (c : String) (rest : List String) (queue : List Raw) (s : Batch I)
      → queue_of c s.queues ≡ queue
      → s.pending ≡ c ∷ rest
      → measure (submit_from c rest queue s) < measure s
  submit_from-measure c rest [] s q p = omega (arith, ap (λ ks. length ks) p)
  submit_from-measure c rest (raw ∷ raws) s q p =
      rw length-append
        (omega (arith, ap (λ ks. length ks) p, queued-put c raws s.queues, ap (λ ks. length ks) q))

  finish-measure :
      (before : List Job) (job : Job) (after : List Job) (outcome : Outcome I) (s : Batch I)
      → s.running ≡ before ++ job ∷ after
      → measure (finish before job after outcome s) < measure s
  unfolding finish
  finish-measure before job after outcome s r =
      let all = ap (λ js. length js) r ∙ length-append before (job ∷ after) in
      omega (
        arith,
        length-append before after,
        length-append s.pending (again job.conversation_id (queue_of job.conversation_id s.queues)),
        length-again job.conversation_id (queue_of job.conversation_id s.queues),
      )

  Step-measure : (s t : Batch I) → Step limit s t → measure t < measure s
  unfolding submit
  Step-measure s t (submits c rest f p b e) =
      rw e (submit_from-measure c rest (queue_of c s.queues) s refl p)
  Step-measure s t (finishes before job after outcome f d r e) =
      rw e (finish-measure before job after outcome s r)
  Step-measure s t (finishes_also before job after outcome f r e) =
      rw e (finish-measure before job after outcome s r)
  Step-measure s t (refills f e) = rw (e, f) (omega (arith, ap phase_weight f))

  -- How many steps were made.
  pub steps : (first t : Batch I) → Reach limit first t → ℕ
  steps first t here = 0
  steps first t (next {s} r st) = steps first s r + 1

  steps-measure :
      (first t : Batch I) (r : Reach limit first t) → steps first t r + measure t ≤ measure first
  unfolding steps
  steps-measure first t here = omega arith
  steps-measure first t (next {s} r st) =
      omega (arith, steps-measure first s r, Step-measure s t st)

  filling_next :
      (s : Batch I) (pending : List String) (running : List Job)
      → 0 < limit
      → s.phase ≡ filling
      → s.pending ≡ pending
      → s.running ≡ running
      → Ended s ⊎ ((t : Batch I) × Step limit s t)
  filling_next s [] [] b f p q =
      inl (record { phase_filling = f; none_pending = p; none_running = q })
  filling_next s [] (job ∷ jobs) b f p q =
      inr (_, finishes [] job jobs (returned none) f (inl p) q refl)
  filling_next s (c ∷ cs) [] b f p q =
      inr (_, submits c cs f p (omega (arith, ap (λ js. length js) q)) refl)
  filling_next s (c ∷ cs) (job ∷ jobs) b f p q = elim (Bool-cases (ltb (length s.running) limit)) [
    | inl e ↦ inr (_, submits c cs f p (ground arith) refl)
    | inr e ↦ inr (_, finishes [] job jobs (returned none) f (inr (ground arith)) q refl)
  ]

  phase_next :
      (s : Batch I) (phase : Phase)
      → 0 < limit
      → s.phase ≡ phase
      → Ended s ⊎ ((t : Batch I) × Step limit s t)
  phase_next s filling b f = filling_next s s.pending s.running b f refl refl
  phase_next s draining b f = inr (_, refills f refl)

-- With a limit of at least 1 the loop has ended or can go on, and it ends whatever the handlers do: a
-- run has at most three steps for each message in the queues and one for each conversation.
pub start_batch-ends :
    (I : Type 0) (limit : ℕ) (r : Readers) (messages : List Raw) (t : Batch I)
    (reached : Reach limit (start_batch r messages) t)
    → 0 < limit
    → (Ended t ⊎ ((u : Batch I) × Step limit t u))
      × (steps limit (start_batch r messages) t reached ≤ measure (start_batch {I = I} r messages))
start_batch-ends I limit r messages t reached b = (
  phase_next limit t t.phase b refl,
  omega (arith, steps-measure limit (start_batch r messages) t reached),
)
