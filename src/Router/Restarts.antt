-- ===== src/Router/Restarts.antt =====
-- What the deduper knows (router/deduper.py), in memory or in its table.
use chatbot_win.Prelude.{
  String, Bool, true, false, ◌&&◌, ◌||◌, Option, none, some, List, [], ◌∷◌, ◌≡◌, refl, sym, ◌∙◌,
  arith, inl, inr, Bool-cases, any, is_some, mem, mem-add, unique, any-unique, any-ext, ◌==◌,
}
use chatbot_win.Router.Deduper.{
  Deduper, stored, seen, stripped_ids, seen_first, seen_any, insert_row, mark, mark_each, mark_many,
}

abbrev pub known : Deduper → String → Bool
known d k = mem k d.cache || stored k d.rows

pub seen_lem : (k : String) (d : Deduper) → (seen k d).0 ≡ known d k
unfolding seen
seen_lem k d = ground arith

-- A query changes no row.
pub seen-rows : (k : String) (d : Deduper) → (seen k d).1.rows ≡ d.rows
unfolding seen
seen-rows k d = ground arith

pub seen_first-rows : (ks : List String) (d : Deduper) → (seen_first ks d).1.rows ≡ d.rows
unfolding seen_first
seen_first-rows [] d = refl
seen_first-rows (k ∷ ks) d = elim (Bool-cases (seen k d).0) [
  | inl e ↦ rw e (seen-rows k d)
  | inr e ↦ rw e (seen_first-rows ks (seen k d).1 ∙ seen-rows k d)
]

pub seen_any-rows : (ids : List String) (d : Deduper) → (seen_any ids d).1.rows ≡ d.rows
unfolding seen_any
seen_any-rows ids d = seen_first-rows (unique (stripped_ids ids)) d

-- A query that fails changes nothing.
seen-unchanged : (k : String) (d : Deduper) → (seen k d).0 ≡ false → (seen k d).1 ≡ d
unfolding seen
seen-unchanged k d h = ground arith

seen_first_lem : (ks : List String) (d : Deduper) → (seen_first ks d).0 ≡ any (known d) ks
unfolding seen_first
seen_first_lem [] d = refl
seen_first_lem (k ∷ ks) d = elim (Bool-cases (seen k d).0) [
  | inl e ↦ rw (e, sym (seen_lem k d), e) refl
  | inr e ↦ rw (e, sym (seen_lem k d), e, seen-unchanged k d e) (seen_first_lem ks d)
]

pub seen_any_lem :
    (ids : List String) (d : Deduper) → (seen_any ids d).0 ≡ any (known d) (stripped_ids ids)
unfolding seen_any
seen_any_lem ids d =
    seen_first_lem (unique (stripped_ids ids)) d ∙ any-unique (known d) (stripped_ids ids)

stored-insert :
    (k j : String) (rows : Option (List String))
    → stored j (insert_row k rows) ≡ (is_some rows && k == j || stored j rows)
stored-insert k j none = refl
stored-insert k j (some rows) = mem-add k j rows

known-mark : (k j : String) (d : Deduper) → known (mark k d) j ≡ (k == j || known d j)
unfolding mark
known-mark k j d = rw (mem-add k j d.cache, stored-insert k j d.rows) (ground arith)

known-mark_each :
    (ks : List String) (j : String) (d : Deduper)
    → known (mark_each ks d) j ≡ (mem j ks || known d j)
unfolding mark_each
known-mark_each [] j d = refl
known-mark_each (k ∷ ks) j d =
    known-mark_each ks j (mark k d) ∙ rw (known-mark k j d) (ground arith)

mem-any : (j : String) (ks : List String) → mem j ks ≡ any (λ k. k == j) ks
mem-any j [] = refl
mem-any j (k ∷ ks) = rw (mem-any j ks) refl

pub mem-unique : (j : String) (ks : List String) → mem j (unique ks) ≡ mem j ks
mem-unique j ks = mem-any j (unique ks) ∙ any-unique (λ k. k == j) ks ∙ sym (mem-any j ks)

pub known-mark_many :
    (ids : List String) (j : String) (d : Deduper)
    → known (mark_many ids d) j ≡ (mem j (stripped_ids ids) || known d j)
unfolding mark_many
known-mark_many ids j d =
    known-mark_each (unique (stripped_ids ids)) j d ∙ rw (mem-unique j (stripped_ids ids)) refl

pub is_some-insert :
    (k : String) (rows : Option (List String)) → is_some (insert_row k rows) ≡ is_some rows
is_some-insert k none = refl
is_some-insert k (some rows) = refl

pub mark-rows : (k : String) (d : Deduper) → (mark k d).rows ≡ insert_row k d.rows
unfolding mark
mark-rows k d = refl

pub is_some-mark_each :
    (ks : List String) (d : Deduper) → is_some (mark_each ks d).rows ≡ is_some d.rows
unfolding mark_each
is_some-mark_each [] d = refl
is_some-mark_each (k ∷ ks) d =
    is_some-mark_each ks (mark k d) ∙ rw (mark-rows k d) (is_some-insert k d.rows)

pub stored-mark :
    (k j : String) (d : Deduper)
    → is_some d.rows ≡ true
    → stored j (mark k d).rows ≡ (k == j || stored j d.rows)
stored-mark k j d h = rw (mark-rows k d, stored-insert k j d.rows, h) refl

pub stored-mark_each :
    (ks : List String) (j : String) (d : Deduper)
    → is_some d.rows ≡ true
    → stored j (mark_each ks d).rows ≡ (mem j ks || stored j d.rows)
unfolding mark_each
stored-mark_each [] j d h = refl
stored-mark_each (k ∷ ks) j d h =
    let still : is_some (mark k d).rows ≡ true = rw (mark-rows k d) (is_some-insert k d.rows ∙ h) in
    stored-mark_each ks j (mark k d) still ∙ rw (stored-mark k j d h) (ground arith)

pub stored-mark_many :
    (ids : List String) (j : String) (d : Deduper)
    → is_some d.rows ≡ true
    → stored j (mark_many ids d).rows ≡ (mem j (stripped_ids ids) || stored j d.rows)
unfolding mark_many
stored-mark_many ids j d h =
    stored-mark_each (unique (stripped_ids ids)) j d h ∙ rw (mem-unique j (stripped_ids ids)) refl

pub is_some-mark_many :
    (ids : List String) (d : Deduper) → is_some (mark_many ids d).rows ≡ is_some d.rows
unfolding mark_many
is_some-mark_many ids d = is_some-mark_each (unique (stripped_ids ids)) d

-- After `mark_many` the ids that `seen_any` finds are those that were marked, up to spaces around
-- them, and those that were known before.
pub seen_any-mark_many :
    (ids marked : List String) (d : Deduper)
    → (seen_any ids (mark_many marked d)).0
      ≡ any (λ k. mem k (stripped_ids marked) || known d k) (stripped_ids ids)
seen_any-mark_many ids marked d =
    seen_any_lem ids (mark_many marked d)
    ∙ any-ext (known (mark_many marked d)) (λ k. mem k (stripped_ids marked) || known d k)
        (stripped_ids ids) (λ k. known-mark_many marked k d)
