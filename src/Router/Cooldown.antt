-- ===== src/Router/Cooldown.antt =====
-- `ConversationCooldown` (router/cooldown.py). Times are microseconds, as of the `datetime`s; the text
-- in the table reads back as the time it was written from.
use chatbot_win.Prelude.{
  ℕ, String, Bool, true, false, Option, none, some, ◌+◌, ◌-◌, ◌*◌, ◌/◌, ltb, nat_eq, if◌then◌else◌,
  Dict, get, put,
}

pub record Cooldown : Type 0 where
  pub seconds : ℕ
  pub last_seen : Dict ℕ
  -- the table `conversation_cooldowns`, none without a database
  pub rows : Option (Dict ℕ)

abbrev pub second : ℕ
second = 1000000

-- The second entry of `check`'s result; a refusal gives the seconds that remain.
pub data Reason : Type 0 where
  cooldown_disabled : Reason
  cooldown_allowed : Reason
  group_cooldown : ℕ → Reason

abbrev pub row_of : String → Option (Dict ℕ) → Option ℕ
row_of c none = none
row_of c (some rows) = get c rows

abbrev remember : String → Option ℕ → Cooldown → Cooldown
remember c none s = s
remember c (some t) s = record s { last_seen = put c t s.last_seen }

abbrev read_from : String → Option ℕ → Cooldown → Option ℕ × Cooldown
read_from c (some t) s = (some t, s)
read_from c none s = (row_of c s.rows, remember c (row_of c s.rows) s)

-- `_read_last_seen`
unfoldable pub read_last_seen : String → Cooldown → Option ℕ × Cooldown
read_last_seen c s = read_from c (get c s.last_seen) s

abbrev pub verdict : ℕ → ℕ → Option ℕ → Bool × Reason
verdict seconds now none = (true, cooldown_allowed)
verdict seconds now (some previous) =
    if ltb now (previous + seconds * second)
    then (false, group_cooldown ((previous + seconds * second - now) / second))
    else (true, cooldown_allowed)

unfoldable pub check : String → ℕ → Cooldown → (Bool × Reason) × Cooldown
check c now s =
    if nat_eq s.seconds 0
    then ((true, cooldown_disabled), s)
    else (verdict s.seconds now (read_last_seen c s).0, (read_last_seen c s).1)

abbrev pub upsert : String → ℕ → Option (Dict ℕ) → Option (Dict ℕ)
upsert c now none = none
upsert c now (some rows) = some (put c now rows)

unfoldable pub mark : String → ℕ → Cooldown → Cooldown
mark c now s = record s { last_seen = put c now s.last_seen; rows = upsert c now s.rows }

unfoldable pub allow : String → ℕ → Cooldown → (Bool × Reason) × Cooldown
allow c now s =
    let checked = check c now s in
    let marked = mark c now checked.1 in if checked.0.0 then (checked.0, marked) else checked
