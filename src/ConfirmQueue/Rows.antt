-- ===== src/ConfirmQueue/Rows.antt =====
-- The table behind the queue keeps one row for each id (ConfirmQueue/Store): a table that is keyed by
-- its records' ids takes every write of records with the same ids, and reads back what was written.
use chatbot_win.Prelude.{
  String, true, false, ◌||◌, some, List, [], ◌∷◌, ◌≡◌, refl, ap, ◌∙◌, arith, nonempty, strip, ◌==◌,
  any,
}
use mathlib.Core.List.{map}
use chatbot_win.ConfirmQueue.Item.{Item, Env}
use chatbot_win.ConfirmQueue.Store.{
  Row, Queue, done, read_rows, read_all, taken, insert_rows, write_all, commit_rows,
  refresh_projection,
}

-- No id stands twice.
abbrev pub Distinct : List String → Type 0
Distinct [] = Unit
Distinct (k ∷ ks) = (any (λ j. j == k) ks ≡ false) × Distinct ks

-- Ids that are their own stripped text, and not blank.
abbrev pub Plain : List String → Type 0
Plain [] = Unit
Plain (k ∷ ks) = (strip k ≡ k) × (nonempty k ≡ true) × Plain ks

abbrev pub ids : List Item → List String
ids = map (λ item. item.queue_id)

-- The records can be the rows of a table.
abbrev pub IsKeyed : List Item → Type 0
IsKeyed items = Plain (ids items) × Distinct (ids items)

-- The row that a record makes.
abbrev pub row_of : Item → Row
row_of item = record { key = item.queue_id; item = item }

pub taken-map :
    (k : String) (items : List Item) → taken k (map row_of items) ≡ any (λ j. j == k) (ids items)
taken-map k [] = refl
taken-map k (x ∷ xs) = ap (λ b. x.queue_id == k || b) (taken-map k xs)

pub insert_rows-IsKeyed :
    (items : List Item) → IsKeyed items → insert_rows items ≡ some (map row_of items)
unfolding insert_rows
insert_rows-IsKeyed [] h = refl
insert_rows-IsKeyed (x ∷ xs) (p, d) =
    rw (p.0, p.1, insert_rows-IsKeyed xs (p.2, d.1), taken-map x.queue_id xs, d.0) refl

pub read_rows-map : (items : List Item) → read_rows (map row_of items) ≡ items
unfolding read_rows
read_rows-map [] = refl
read_rows-map (x ∷ xs) = ap (λ ys. x ∷ ys) (read_rows-map xs)

-- A queue whose table holds exactly the rows of keyed records.
pub record IsValid (q : Queue) : Type 0 where
  pub keyed : IsKeyed (read_all q)
  pub rows_match : q.rows ≡ map row_of (read_all q)

pub rows-refresh_projection :
    (env : Env) (items : List Item) (q : Queue) → (refresh_projection env items q).rows ≡ q.rows
unfolding refresh_projection
rows-refresh_projection env items q = ground arith

pub rows-IsValid :
    (q : Queue) (items : List Item) → q.rows ≡ map row_of items → IsKeyed items → IsValid q
unfolding read_all
rows-IsValid q items e k =
    let back : read_rows q.rows ≡ items = rw e (read_rows-map items) in
    record { keyed = rw back k; rows_match = rw back e }

pub write_all-done {ℓ} :
    {A : Type ℓ} (env : Env) (items : List Item) (a : A) (q : Queue)
    → IsKeyed items
    → ((write_all env items a q).1 ≡ done a)
      × (read_all (write_all env items a q).0 ≡ items)
      × IsValid (write_all env items a q).0
unfolding write_all read_all
write_all-done env items a q h =
    rw (insert_rows-IsKeyed items h, commit_rows)
      (let e = rows-refresh_projection env items (record q { rows = map row_of items }) in
        (refl, ap read_rows e ∙ read_rows-map items, rows-IsValid _ items e h))
