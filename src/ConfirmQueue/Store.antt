-- ===== src/ConfirmQueue/Store.antt =====
-- The SQLite authority behind the queue (confirm_queue.py): a table of rows in `id` order, the
-- readable projection, and the loops by which every operation edits one record under the lock.
-- The lock makes each operation one step. A row whose JSON is broken is not modelled.
use chatbot_win.Prelude.{
  String, Bool, Option, none, some, List, [], ◌∷◌, ◌++◌, if◌then◌else◌, nonempty, strip, ◌==◌, any,
}
use chatbot_win.ConfirmQueue.Item.{Item, Env}

-- A row of `confirm_queue_items`: the UNIQUE column `queue_id`, and `record_json`.
pub record Row : Type 0 where
  pub key : String
  pub item : Item

pub record Queue : Type 0 where
  pub rows : List Row
  -- confirm_queue.jsonl, which nothing reads back
  pub projection : List Item

abbrev pub empty : Queue
empty = record { rows = []; projection = [] }

-- `KeyError`, `ConfirmQueueClaimConflict`, `ValueError`, `sqlite3.IntegrityError`
pub data Error : Type 0 where
  key_error claim_conflict value_error integrity_error : Error

pub data Outcome {ℓ} (A : Type ℓ) : Type ℓ where
  done : A → Outcome A
  raised : Error → Outcome A

-- `_read_all_unlocked`
unfoldable pub read_rows : List Row → List Item
read_rows [] = []
read_rows (r ∷ rs) = r.item ∷ read_rows rs

unfoldable pub read_all : Queue → List Item
unfolding read_rows
read_all q = read_rows q.rows

abbrev pub taken : String → List Row → Bool
taken key = any (λ r. r.key == key)

-- `_append_unlocked`: `ON CONFLICT(queue_id) DO NOTHING`
unfoldable pub append_row : Item → List Row → List Row
append_row item rows =
    if taken item.queue_id rows
    then rows
    else rows ++ record { key = item.queue_id; item = item } ∷ []

abbrev add_row : Row → Option (List Row) → Option (List Row)
add_row r none = none
add_row r (some rows) = if taken r.key rows then none else some (r ∷ rows)

-- The inserts of `_write_all_unlocked`: a record with a blank id is skipped, and a second one with
-- the same id violates the UNIQUE column (`none`).
unfoldable pub insert_rows : List Item → Option (List Row)
insert_rows [] = some []
insert_rows (item ∷ items) =
    let rest = insert_rows items in
    if nonempty (strip item.queue_id)
    then add_row (record { key = strip item.queue_id; item = item }) rest
    else rest

-- `_refresh_projection_unlocked`: an `OSError` leaves the old file.
unfoldable pub refresh_projection : Env → List Item → Queue → Queue
refresh_projection env items q =
    if env.projection_writable then record q { projection = items } else q

-- A rolled back write leaves the queue as it was.
unfoldable pub commit_rows {ℓ} :
    {A : Type ℓ} → Env → List Item → A → Queue → Option (List Row) → Queue × Outcome A
unfolding refresh_projection
commit_rows env items a q none = (q, raised integrity_error)
commit_rows env items a q (some rows) =
    (refresh_projection env items (record q { rows = rows }), done a)

-- `_write_all_unlocked`, and the answer of the operation that calls it.
unfoldable pub write_all {ℓ} : {A : Type ℓ} → Env → List Item → A → Queue → Queue × Outcome A
unfolding commit_rows insert_rows
write_all env items a q = commit_rows env items a q (insert_rows items)

-- What an operation does at the record that it looks for: raise, return without a write, or write
-- the record anew.
pub data Edit {ℓ} (A : Type ℓ) : Type ℓ where
  refuse : Error → Edit A
  answer : A → Edit A
  write : Item → A → Edit A

-- What its loop over the records comes to.
pub data Scan {ℓ} (A : Type ℓ) : Type ℓ where
  missing : Scan A
  refused : Error → Scan A
  answered : A → Scan A
  written : List Item → A → Scan A

module _ {ℓ} {A : Type ℓ} where
  abbrev pub at_item : Edit A → List Item → Scan A
  at_item (refuse e) rest = refused e
  at_item (answer a) rest = answered a
  at_item (write item a) rest = written (item ∷ rest) a

  abbrev pub behind : Item → Scan A → Scan A
  behind item missing = missing
  behind item (refused e) = refused e
  behind item (answered a) = answered a
  behind item (written items a) = written (item ∷ items) a

  -- `for item in records: if not test: continue; ...`
  unfoldable pub edit_first : (Item → Bool) → (Item → Edit A) → List Item → Scan A
  edit_first test f [] = missing
  edit_first test f (x ∷ xs) = if test x then at_item (f x) xs else behind x (edit_first test f xs)

  abbrev pub or_here : Scan A → (Item → Bool) → (Item → Edit A) → Item → List Item → Scan A
  or_here missing test f x xs = if test x then at_item (f x) xs else missing
  or_here (refused e) test f x xs = refused e
  or_here (answered a) test f x xs = answered a
  or_here (written items a) test f x xs = written (x ∷ items) a

  -- `for index in range(len(records) - 1, -1, -1): ...`
  unfoldable pub edit_last : (Item → Bool) → (Item → Edit A) → List Item → Scan A
  edit_last test f [] = missing
  edit_last test f (x ∷ xs) = or_here (edit_last test f xs) test f x xs

  -- The end of an operation: what it answers where no record is found is its own.
  unfoldable pub conclude : Env → Outcome A → Queue → Scan A → Queue × Outcome A
  unfolding write_all
  conclude env absent q missing = (q, absent)
  conclude env absent q (refused e) = (q, raised e)
  conclude env absent q (answered a) = (q, done a)
  conclude env absent q (written items a) = write_all env items a q

abbrev pub has_id : String → Item → Bool
has_id queue_id item = item.queue_id == queue_id
