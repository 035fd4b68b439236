-- ===== src/ConfirmQueue/Moves/Appends.antt =====
-- The append of a row by `enqueue` (confirm_queue.py).
use mathlib.Core.List.{map-append, map}
use chatbot_win.Prelude.{
  String, true, false, ◌||◌, none, List, [], ◌∷◌, ◌++◌, ◌≡◌, refl, sym, ap, arith, ◌∙◌, ◌==◌,
  Bool-cases, inl, inr, nonempty, strip, any, eq_iff,
}
use chatbot_win.ConfirmQueue.Item.{pending, Item, Env}
use chatbot_win.ConfirmQueue.Store.{
  Queue, Row, read_all, read_rows, taken, append_row, refresh_projection,
}
use chatbot_win.ConfirmQueue.Rows.{
  Distinct, Plain, ids, IsKeyed, row_of, taken-map, read_rows-map, IsValid, rows-IsValid,
  rows-refresh_projection,
}
use chatbot_win.ConfirmQueue.Review.{with_row}
use chatbot_win.ConfirmQueue.Moves.Calls.{Call}
use chatbot_win.ConfirmQueue.Moves.Evolutions.{Steps, same, added}

pub ids-append : (xs ys : List Item) → ids (xs ++ ys) ≡ ids xs ++ ids ys
ids-append xs ys = map-append (λ x. x.queue_id) xs ys

pub Plain-append :
    (ks : List String) (k : String)
    → Plain ks
    → strip k ≡ k
    → nonempty k ≡ true
    → Plain (ks ++ k ∷ [])
Plain-append [] k h s n = (s, n, tt)
Plain-append (j ∷ js) k h s n = (h.0, h.1, Plain-append js k h.2 s n)

pub any-append :
    (k j : String) (ks : List String)
    → any (λ i. i == j) (ks ++ k ∷ []) ≡ (any (λ i. i == j) ks || k == j)
any-append k j [] = ground arith
any-append k j (i ∷ is) = ground (arith, any-append k j is)

pub Distinct-append :
    (ks : List String) (k : String)
    → Distinct ks
    → any (λ j. j == k) ks ≡ false
    → Distinct (ks ++ k ∷ [])
Distinct-append [] k h f = (refl, tt)
Distinct-append (j ∷ js) k h f = (
  ground (arith, any-append k j js, eq_iff k j, eq_iff j k),
  Distinct-append js k h.1 (ground arith),
)

pub IsKeyed-append :
    (xs : List Item) (x : Item)
    → IsKeyed xs
    → strip x.queue_id ≡ x.queue_id
    → nonempty x.queue_id ≡ true
    → any (λ j. j == x.queue_id) (ids xs) ≡ false
    → IsKeyed (xs ++ x ∷ [])
IsKeyed-append xs x k s n f =
    rw (ids-append xs (x ∷ []))
      (Plain-append (ids xs) x.queue_id k.0 s n, Distinct-append (ids xs) x.queue_id k.1 f)

pub refresh_projection-rows :
    (env : Env) (items xs : List Item) (q : Queue)
    → q.rows ≡ map row_of xs
    → IsKeyed xs
    → (read_all (refresh_projection env items q) ≡ xs) × IsValid (refresh_projection env items q)
unfolding read_all
refresh_projection-rows env items xs q e k =
    let r = rows-refresh_projection env items q ∙ e in
    (ap read_rows r ∙ read_rows-map xs, rows-IsValid _ xs r k)

pub append_row-taken :
    (x : Item) (rows : List Row) → taken x.queue_id rows ≡ true → append_row x rows ≡ rows
unfolding append_row
append_row-taken x rows h = rw h

pub append_row-fresh :
    (x : Item) (xs : List Item)
    → taken x.queue_id (map row_of xs) ≡ false
    → append_row x (map row_of xs) ≡ map row_of (xs ++ x ∷ [])
unfolding append_row
append_row-fresh x xs h = rw h (sym (map-append row_of xs (x ∷ [])))

pub with_row-Steps :
    (call : Call) (env : Env) (x : Item) (q : Queue)
    → IsValid q
    → x.status ≡ pending
    → x.send_claim ≡ none
    → strip x.queue_id ≡ x.queue_id
    → nonempty x.queue_id ≡ true
    → Steps call q (with_row env x q)
unfolding with_row
with_row-Steps call env x q v p c s n = elim (Bool-cases (taken x.queue_id q.rows)) [
  | inl old ↦
      let (r, v') =
        refresh_projection-rows env _ (read_all q) (record q { rows = append_row x q.rows })
          (append_row-taken x q.rows old ∙ v.rows_match) v.keyed in
      (same r, v')
  | inr new ↦
      let fresh = rw v.rows_match at new in
      let alone = sym (taken-map x.queue_id (read_all q)) ∙ fresh in
      let rows = ap (append_row x) v.rows_match ∙ append_row-fresh x (read_all q) fresh in
      let (r, v') =
        refresh_projection-rows env _ (read_all q ++ x ∷ [])
          (record q { rows = append_row x q.rows }) rows
          (IsKeyed-append (read_all q) x v.keyed s n alone) in
      (added x p c alone r, v')
]
