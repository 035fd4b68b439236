-- ===== src/Router/Duplicates.antt =====
-- A message that was marked as done stays a duplicate (router/router.py with router/deduper.py).
use chatbot_win.Prelude.{
  String, true, List, [], ◌∷◌, ◌≡◌, refl, ◌∙◌, arith, inl, inr, Bool-cases, any, is_some, mem,
  nonempty, strip, eq_refl,
}
use chatbot_win.Router.Deduper.{Deduper, stored, opened, stripped_ids, seen_any, mark, mark_many}
use chatbot_win.Router.Decide.{
  Message, Channels, State, duplicate, message_dedupe_ids, decide, mark_done, mark_message_done,
  untrusted_channel_source,
}
use chatbot_win.Router.Restarts.{
  known, seen_any_lem, seen_any-rows, stored-mark, stored-mark_many, mark-rows, is_some-insert,
  is_some-mark_many,
}

-- What may happen to the router: its calls, and a restart, of which only the tables stay.
pub data Event : Type 0 where
  decided : Message → Event
  marked : String → Event
  marked_message : Message → Event
  restarted : Event

module _ {S C : Type 0} (access : Channels S C) where
  abbrev pub step : Event → State S → State S
  step (decided m) s = (decide access m s).1
  step (marked k) s = mark_done k s
  step (marked_message m) s = mark_message_done m s
  step restarted s = record s { deduper = opened s.deduper.rows }

  abbrev pub run : List Event → State S → State S
  run [] s = s
  run (e ∷ es) s = run es (step e s)

  decide-rows : (m : Message) (s : State S) → (decide access m s).1.deduper.rows ≡ s.deduper.rows
  unfolding decide
  decide-rows m s = elim (Bool-cases (seen_any (message_dedupe_ids m) s.deduper).0) [
    | inl e ↦ rw e (seen_any-rows (message_dedupe_ids m) s.deduper)
    | inr e ↦ elim (Bool-cases (untrusted_channel_source m)) [
      | inl f ↦ rw (e, f) (seen_any-rows (message_dedupe_ids m) s.deduper)
      | inr f ↦ rw (e, f) (seen_any-rows (message_dedupe_ids m) s.deduper)
    ]
  ]

-- The table is there and holds the id.
record Remembers (k : String) (d : Deduper) : Type 0 where
  pub durable : is_some d.rows ≡ true
  pub held : stored k d.rows ≡ true

same_rows-Remembers : (k : String) (a b : Deduper) → a.rows ≡ b.rows → Remembers k b → Remembers k a
same_rows-Remembers k a b e r = record { durable = rw e r.durable; held = rw e r.held }

mark-Remembers : (k j : String) (d : Deduper) → Remembers k d → Remembers k (mark j d)
mark-Remembers k j d r = record {
  durable = rw mark-rows (is_some-insert j d.rows ∙ r.durable);
  held = rw (stored-mark j k d r.durable, r.held) (ground arith);
}

mark_many-Remembers :
    (k : String) (ids : List String) (d : Deduper) → Remembers k d → Remembers k (mark_many ids d)
mark_many-Remembers k ids d r = record {
  durable = is_some-mark_many ids d ∙ r.durable;
  held = rw (stored-mark_many ids k d r.durable, r.held) (ground arith);
}

mark_done-Remembers :
    {S : Type 0} (k j : String) (s : State S)
    → Remembers k s.deduper
    → Remembers k (mark_done j s).deduper
unfolding mark_done
mark_done-Remembers k j s r = mark-Remembers k j s.deduper r

mark_message_done-Remembers :
    {S : Type 0} (k : String) (m : Message) (s : State S)
    → Remembers k s.deduper
    → Remembers k (mark_message_done m s).deduper
unfolding mark_message_done
mark_message_done-Remembers k m s r = mark_many-Remembers k (message_dedupe_ids m) s.deduper r

run-Remembers :
    {S C : Type 0} (access : Channels S C) (k : String) (es : List Event) (s : State S)
    → Remembers k s.deduper
    → Remembers k (run access es s).deduper
run-Remembers access k [] s r = r
run-Remembers access k (e ∷ es) s r = run-Remembers access k es (step access e s) (one e)
  where
    one : (e : Event) → Remembers k (step access e s).deduper
    one (decided m) =
        same_rows-Remembers k (decide access m s).1.deduper s.deduper (decide-rows access m s) r
    one (marked j) = mark_done-Remembers k j s r
    one (marked_message m) = mark_message_done-Remembers k m s r
    one restarted = same_rows-Remembers k (opened s.deduper.rows) s.deduper refl r

-- The id of the message is among those it is looked up by.
own_id :
    (m : Message)
    → nonempty (strip m.message_id) ≡ true
    → mem (strip m.message_id) (stripped_ids (message_dedupe_ids m)) ≡ true
unfolding message_dedupe_ids stripped_ids
own_id m h = elim (Bool-cases (nonempty (strip m.dedupe_key))) [
  | inl e ↦ rw (e, h, eq_refl (strip m.message_id)) refl
  | inr e ↦ rw (e, h, eq_refl (strip m.message_id)) refl
]

known_own :
    (m : Message) (d : Deduper)
    → nonempty (strip m.message_id) ≡ true
    → stored (strip m.message_id) d.rows ≡ true
    → any (known d) (stripped_ids (message_dedupe_ids m)) ≡ true
unfolding message_dedupe_ids stripped_ids
known_own m d h k = elim (Bool-cases (nonempty (strip m.dedupe_key))) [
  | inl e ↦ rw (e, h, k) (ground arith)
  | inr e ↦ rw (e, h, k) (ground arith)
]

mark_message_done-own_id :
    {S : Type 0} (m : Message) (s : State S)
    → is_some s.deduper.rows ≡ true
    → nonempty (strip m.message_id) ≡ true
    → Remembers (strip m.message_id) (mark_message_done m s).deduper
unfolding mark_message_done
mark_message_done-own_id m s h n = record {
  durable = is_some-mark_many (message_dedupe_ids m) s.deduper ∙ h;
  held =
      rw (stored-mark_many (message_dedupe_ids m) (strip m.message_id) s.deduper h, own_id m n)
        refl;
}

decide-seen :
    {S C : Type 0} (access : Channels S C) (m : Message) (s : State S)
    → (seen_any (message_dedupe_ids m) s.deduper).0 ≡ true
    → (decide access m s).0.action ≡ duplicate
unfolding decide
decide-seen access m s h = rw h refl

-- With a database: a message whose id is not blank and that was marked as done is routed as a
-- duplicate, whatever the router was called for and however often it was restarted in between.
pub decide-mark_message_done :
    {S C : Type 0} (access : Channels S C) (m : Message) (es : List Event) (s : State S)
    → is_some s.deduper.rows ≡ true
    → nonempty (strip m.message_id) ≡ true
    → (decide access m (run access es (mark_message_done m s))).0.action ≡ duplicate
decide-mark_message_done access m es s h n =
    let after =
      run-Remembers access (strip m.message_id) es (mark_message_done m s)
        (mark_message_done-own_id m s h n) in
    decide-seen access m (run access es (mark_message_done m s)) (
      seen_any_lem (message_dedupe_ids m) (run access es (mark_message_done m s)).deduper
      ∙ known_own m (run access es (mark_message_done m s)).deduper n after.held)
