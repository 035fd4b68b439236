-- ===== src/Json.antt =====
-- Payloads that Python reads from JSON, as the admission of channels looks at them
-- (conversation/channel_admission.py).
use chatbot_win.Prelude.{
  ℕ, String, Bool, Option, none, some, List, [], ◌∷◌, ◌++◌, ◌==◌, take, if◌then◌else◌,
}

mutual
  -- `number` holds what `str` gives and whether the number is not zero.
  pub data Value : Type 0 where
    nothing : Value
    truth : Bool → Value
    number : String → Bool → Value
    text : String → Value
    listed : Items → Value
    dict : Entries → Value

  pub data Items : Type 0 where
    no_items : Items
    item : Value → Items → Items

  pub data Entries : Type 0 where
    no_entries : Entries
    entry : String → Value → Entries → Entries

-- `payload.get(key)`
unfoldable pub entry_of : String → Entries → Option Value
entry_of key no_entries = none
entry_of key (entry k value rest) = if k == key then some value else entry_of key rest

-- What Python's `str` and `lower` do: `printed` is `str` of a list or a dict.
pub record Python : Type 0 where
  pub lower : String → String
  pub printed : Value → String
  pub is_alnum : String → Bool
  pub is_digit : ℕ → Bool

-- `str(value or "")`
unfoldable pub text_of : Python → Option Value → String
text_of py none = ""
text_of py (some nothing) = ""
text_of py (some (truth b)) = if b then "True" else ""
text_of py (some (number s nonzero)) = if nonzero then s else ""
text_of py (some (text s)) = s
text_of py (some (listed no_items)) = ""
text_of py (some (listed (item v rest))) = py.printed (listed (item v rest))
text_of py (some (dict no_entries)) = ""
text_of py (some (dict (entry k v rest))) = py.printed (dict (entry k v rest))

-- The dicts in the order of `_walk_dicts`: its stack gives the last of the values first, each with all
-- that is in it.
unfoldable mutual
  pub dicts_of : Value → List Entries
  dicts_of nothing = []
  dicts_of (truth b) = []
  dicts_of (number s nonzero) = []
  dicts_of (text s) = []
  dicts_of (listed items) = dicts_of_items items
  dicts_of (dict entries) = entries ∷ dicts_of_entries entries

  pub dicts_of_items : Items → List Entries
  dicts_of_items no_items = []
  dicts_of_items (item value rest) = dicts_of_items rest ++ dicts_of value

  pub dicts_of_entries : Entries → List Entries
  dicts_of_entries no_entries = []
  dicts_of_entries (entry key value rest) = dicts_of_entries rest ++ dicts_of value

-- `_walk_dicts`
unfoldable pub walk_dicts : Entries → List Entries
walk_dicts payload = take 100 (dicts_of (dict payload))
