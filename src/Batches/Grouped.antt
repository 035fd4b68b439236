-- ===== src/Batches/Grouped.antt =====
-- What the grouping of a batch gives (conversation_scheduler.py, `process_batch`).
use chatbot_win.Prelude.{
  append_assoc, append_nil, String, Bool, true, false, Option, none, some, List, [], ◌∷◌, ◌++◌, ◌<◌,
  ◌≤◌, ◌≡◌, refl, sym, ap, ◌∙◌, inl, inr, arith, count, count-append, Dict, get, get_or, get-put,
  get_or-put, is_some, mem, ◌==◌, eq_iff, if◌then◌else◌, Bool-cases,
}
use chatbot_win.Batches.Defer.{
  Raw, Normalized, Readers, Entry, defer_non_latest_live_messages, last_live_from,
}
use chatbot_win.Batches.Group.{Groups, add_entry, group_from, no_groups, group, queues_of}
use chatbot_win.Batches.Run.{queue_of, start_batch}
use chatbot_win.Batches.Limits.{load, one_if, is_empty}

-- The entry of a message of the conversation.
abbrev pub entry_in : String → Raw → Option Normalized → List Entry
entry_in c raw none = []
entry_in c raw (some m) =
    if m.conversation_id == c then record { raw = raw; message = m } ∷ [] else []

-- The messages of the conversation, in the order of the batch.
unfoldable pub entries_of : Readers → String → List Raw → List Entry
entries_of r c [] = []
entries_of r c (raw ∷ rest) = entry_in c raw (r.normalize raw) ++ entries_of r c rest

-- The order holds the grouped conversations, each once.
abbrev IsOrdered : Groups → Type 0
IsOrdered g = (c : String) → count (λ k. k == c) g.order ≡ one_if (is_some (get c g.grouped))

add_entry-IsOrdered :
    (raw : Raw) (m : Option Normalized) (g : Groups) → IsOrdered g → IsOrdered (add_entry raw m g)
add_entry-IsOrdered raw none g h c = h c
add_entry-IsOrdered raw (some m) g h c = rw get-put (elim (Bool-cases (m.conversation_id == c)) [
  | inl e ↦
      let same = (eq_iff m.conversation_id c).0 e in
      let there : is_some (get m.conversation_id g.grouped) ≡ is_some (get c g.grouped) =
        ap (λ k. is_some (get k g.grouped)) same in
      elim (Bool-cases (is_some (get c g.grouped))) [
        | inl p ↦ rw (e, there, p) (h c ∙ ap (λ b. one_if b) p)
        | inr p ↦ rw (e, there, p, count-append, e) (omega (arith, h c ∙ ap (λ b. one_if b) p))
      ]
  | inr e ↦ elim (Bool-cases (is_some (get m.conversation_id g.grouped))) [
    | inl p ↦ rw (e, p) (h c)
    | inr p ↦ rw (e, p, count-append, e) (omega (arith, h c))
  ]
])

group_from-IsOrdered :
    (r : Readers) (g : Groups) (messages : List Raw)
    → IsOrdered g
    → IsOrdered (group_from r g messages)
unfolding group_from
group_from-IsOrdered r g [] h = h
group_from-IsOrdered r g (raw ∷ rest) h =
    group_from-IsOrdered r (add_entry raw (r.normalize raw) g) rest
      (add_entry-IsOrdered raw (r.normalize raw) g h)

grouped-add_entry :
    (c : String) (raw : Raw) (m : Option Normalized) (g : Groups)
    → get_or c [] (add_entry raw m g).grouped ≡ get_or c [] g.grouped ++ entry_in c raw m
grouped-add_entry c raw none g = sym (append_nil (get_or c [] g.grouped))
grouped-add_entry c raw (some m) g = rw get_or-put (elim (Bool-cases (m.conversation_id == c)) [
  | inl e ↦ rw (e, (eq_iff m.conversation_id c).0 e) refl
  | inr e ↦ rw e (sym (append_nil (get_or c [] g.grouped)))
])

grouped-group_from :
    (c : String) (r : Readers) (g : Groups) (messages : List Raw)
    → get_or c [] (group_from r g messages).grouped
      ≡ get_or c [] g.grouped ++ entries_of r c messages
unfolding group_from entries_of
grouped-group_from c r g [] = sym (append_nil (get_or c [] g.grouped))
grouped-group_from c r g (raw ∷ rest) =
    grouped-group_from c r (add_entry raw (r.normalize raw) g) rest
    ∙ ap (λ l. l ++ entries_of r c rest) (grouped-add_entry c raw (r.normalize raw) g)
    ∙ append_assoc (get_or c [] g.grouped) (entry_in c raw (r.normalize raw)) (entries_of r c rest)

queue_of-queues_of :
    (c : String) (r : Readers) (grouped : Dict (List Entry)) (order : List String)
    → queue_of c (queues_of r grouped order) ≡ (
        if mem c order
        then defer_non_latest_live_messages r.is_reset_command (get_or c [] grouped)
        else [])
unfolding queues_of get_or
queue_of-queues_of c r grouped [] = refl
queue_of-queues_of c r grouped (k ∷ ks) = elim (Bool-cases (k == c)) [
  | inl e ↦ rw (e, (eq_iff k c).0 e) refl
  | inr e ↦ rw e (queue_of-queues_of c r grouped ks)
]

-- A conversation that is not grouped has no entries.
get_or-none : (c : String) (d : Dict (List Entry)) → is_some (get c d) ≡ false → get_or c [] d ≡ []
unfolding get get_or
get_or-none c [] h = refl
get_or-none c ((k, v) ∷ d) h = ground (arith, eq_iff k c, get_or-none c d)

mem-count : (c : String) (ks : List String) → mem c ks ≡ false → count (λ k. k == c) ks ≡ 0
mem-count c [] h = refl
mem-count c (k ∷ ks) h = ground (arith, mem-count c ks)

count-mem : (c : String) (ks : List String) → mem c ks ≡ true → 0 < count (λ k. k == c) ks
count-mem c [] h = cc
count-mem c (k ∷ ks) h = ground (arith, count-mem c ks)

group-IsOrdered : (r : Readers) (messages : List Raw) → IsOrdered (group r messages)
unfolding group get
group-IsOrdered r messages = group_from-IsOrdered r no_groups messages (λ c. refl)

grouped-group :
    (c : String) (r : Readers) (messages : List Raw)
    → get_or c [] (group r messages).grouped ≡ entries_of r c messages
unfolding group get_or
grouped-group c r messages = grouped-group_from c r no_groups messages

defer-nil : (reset : Normalized → Bool) → defer_non_latest_live_messages reset [] ≡ []
unfolding defer_non_latest_live_messages last_live_from
defer-nil reset = refl

absent :
    (c : String) (r : Readers) (messages : List Raw)
    → mem c (group r messages).order ≡ false
    → defer_non_latest_live_messages r.is_reset_command (entries_of r c messages) ≡ []
absent c r messages e =
    let none_counted = mem-count c (group r messages).order e in
    let counted = group-IsOrdered r messages c in
    let no_group : is_some (get c (group r messages).grouped) ≡ false = ground arith in
    let no_entries = get_or-none c (group r messages).grouped no_group in
    rw (sym (grouped-group c r messages), no_entries) (defer-nil r.is_reset_command)

-- The queue of a conversation at the start: its messages, those deferred that must be.
pub queue_of-start_batch :
    (I : Type 0) (c : String) (r : Readers) (messages : List Raw)
    → queue_of c (start_batch {I = I} r messages).queues
      ≡ defer_non_latest_live_messages r.is_reset_command (entries_of r c messages)
unfolding start_batch
queue_of-start_batch I c r messages =
    queue_of-queues_of c r (group r messages).grouped (group r messages).order
    ∙ elim (Bool-cases (mem c (group r messages).order)) [
      | inl e ↦ rw (e, grouped-group) refl
      | inr e ↦ rw e (sym (absent c r messages e))
    ]

pub load-start_batch :
    (I : Type 0) (c : String) (r : Readers) (messages : List Raw)
    → load c (start_batch {I = I} r messages) ≤ 1
unfolding start_batch
load-start_batch I c r messages = ground (arith, group-IsOrdered r messages c)

pub waits-start_batch :
    (I : Type 0) (c : String) (r : Readers) (messages : List Raw)
    → is_empty (queue_of c (start_batch {I = I} r messages).queues) ≡ false
    → 0 < load c (start_batch {I = I} r messages)
unfolding start_batch
waits-start_batch I c r messages h = elim (Bool-cases (mem c (group r messages).order)) [
  | inl e ↦ omega (arith, count-mem c (group r messages).order e)
  | inr e ↦ absurd (cc (rw (queue_of-queues_of, e) at h))
]
