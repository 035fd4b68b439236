-- ===== src/Batches/Group.antt =====
-- The grouping at the start of `process_batch` (conversation_scheduler.py).
use chatbot_win.Prelude.{
  String, Option, none, some, List, [], ◌∷◌, ◌++◌, Dict, get, get_or, put, is_some, if◌then◌else◌,
}
use chatbot_win.Batches.Defer.{Raw, Normalized, Readers, Entry, defer_non_latest_live_messages}

-- `grouped` and `conversation_order`
pub record Groups : Type 0 where
  pub grouped : Dict (List Entry)
  pub order : List String

abbrev pub add_entry : Raw → Option Normalized → Groups → Groups
add_entry raw none g = g
add_entry raw (some m) g = record {
  grouped =
      put m.conversation_id
        (get_or m.conversation_id [] g.grouped ++ record { raw = raw; message = m } ∷ []) g.grouped;
  order =
      if is_some (get m.conversation_id g.grouped)
      then g.order
      else g.order ++ m.conversation_id ∷ [];
}

unfoldable pub group_from : Readers → Groups → List Raw → Groups
group_from r g [] = g
group_from r g (raw ∷ rest) = group_from r (add_entry raw (r.normalize raw) g) rest

abbrev pub no_groups : Groups
no_groups = record { grouped = []; order = [] }

unfoldable pub group : Readers → List Raw → Groups
group r messages = group_from r no_groups messages

-- `queues`, by conversation in `conversation_order`
unfoldable pub queues_of : Readers → Dict (List Entry) → List String → Dict (List Raw)
queues_of r grouped [] = []
queues_of r grouped (c ∷ cs) =
    (c, defer_non_latest_live_messages r.is_reset_command (get_or c [] grouped))
    ∷ queues_of r grouped cs
