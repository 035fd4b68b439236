-- ===== src/Router/Deduper.antt =====
-- `Deduper` (router/deduper.py): the set in memory, and the keys of the table `processed_messages`,
-- none without a database.
use chatbot_win.Prelude.{
  String, Bool, true, false, Option, none, some, List, [], ◌∷◌, if◌then◌else◌, nonempty, strip, mem,
  add, unique,
}

pub record Deduper : Type 0 where
  pub cache : List String
  pub rows : Option (List String)

-- `__init__` over the table that is there
abbrev pub opened : Option (List String) → Deduper
opened rows = record { cache = []; rows = rows }

abbrev pub stored : String → Option (List String) → Bool
stored k none = false
stored k (some rows) = mem k rows

unfoldable pub seen : String → Deduper → Bool × Deduper
seen k d =
    if mem k d.cache
    then (true, d)
    else if stored k d.rows
    then (true, record d { cache = add k d.cache })
    else (false, d)

-- `dict.fromkeys(str(item).strip() for item in message_ids if str(item).strip())`
unfoldable pub stripped_ids : List String → List String
stripped_ids [] = []
stripped_ids (k ∷ ks) = if nonempty (strip k) then strip k ∷ stripped_ids ks else stripped_ids ks

-- The loop of `seen_any`, which ends at the first id that was seen.
unfoldable pub seen_first : List String → Deduper → Bool × Deduper
seen_first [] d = (false, d)
seen_first (k ∷ ks) d =
    let here = seen k d in let rest = seen_first ks here.1 in if here.0 then here else rest

unfoldable pub seen_any : List String → Deduper → Bool × Deduper
seen_any ids d = seen_first (unique (stripped_ids ids)) d

abbrev pub insert_row : String → Option (List String) → Option (List String)
insert_row k none = none
insert_row k (some rows) = some (add k rows)

unfoldable pub mark : String → Deduper → Deduper
mark k d = record { cache = add k d.cache; rows = insert_row k d.rows }

unfoldable pub mark_each : List String → Deduper → Deduper
mark_each [] d = d
mark_each (k ∷ ks) d = mark_each ks (mark k d)

unfoldable pub mark_many : List String → Deduper → Deduper
mark_many ids d = mark_each (unique (stripped_ids ids)) d
