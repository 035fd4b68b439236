-- ===== src/ConfirmQueue/Moves/Evolutions.antt =====
-- How the list of records evolves under a call, and the loops that rewrite it (confirm_queue.py).
use chatbot_win.Prelude.{
  String, Bool, true, false, none, List, [], ◌∷◌, ◌++◌, ◌≡◌, refl, arith, ◌==◌, Bool-cases,
  Option-cases, inl, inr, any,
}
use chatbot_win.ConfirmQueue.Item.{pending, Item, Env, active_send_claim}
use chatbot_win.ConfirmQueue.Store.{
  Queue, Outcome, Edit, write, Scan, missing, refused, answered, written, behind, has_id, read_all,
  conclude, write_all, edit_first, edit_last,
}
use chatbot_win.ConfirmQueue.Rows.{ids, IsKeyed, IsValid, write_all-done}
use chatbot_win.ConfirmQueue.Scans.{
  One, One-map, One-ids, Yields, Edits, edit_first-Yields, edit_last-Yields,
}
use chatbot_win.ConfirmQueue.Claims.{retire}
use chatbot_win.ConfirmQueue.Review.{reviewed, drop_first}
use chatbot_win.ConfirmQueue.Retry.{item_with_retry}
use chatbot_win.ConfirmQueue.Moves.Calls.{Call, removes}
use chatbot_win.ConfirmQueue.Moves.Refine.{Move, claim, expire, release, review, ack, retry}

pub queue_id-Move : (call : Call) (x y : Item) → Move call x y → y.queue_id ≡ x.queue_id
unfolding retire reviewed item_with_retry
queue_id-Move call x y (claim env owner ok free e) = ground arith
queue_id-Move call x y (expire env c ok held dead e) = ground arith
queue_id-Move call x y (release token c t ok held s i n) = i
queue_id-Move call x y (review env r token u f v e) = ground arith
queue_id-Move call x y (ack free v i c) = i
queue_id-Move call x y (retry old new stamp reviewer free open_ e) = ground arith

-- A record with the id `k` that nobody holds is dropped.
pub data Dropped (k : String) : List Item → List Item → Type 0 where
  head :
      {x : Item} {xs : List Item}
      → has_id k x ≡ true
      → active_send_claim x ≡ none
      → Dropped k (x ∷ xs) xs
  later : {x : Item} {xs ys : List Item} → Dropped k xs ys → Dropped k (x ∷ xs) (x ∷ ys)

-- The ids that a call removes.
abbrev pub Removes : Call → String → Type 0
Removes (removes j) k = j ≡ k
Removes _ k = ⊥

pub data Evolves (call : Call) (xs : List Item) (ys : List Item) : Type 0 where
  same : ys ≡ xs → Evolves call xs ys
  moved : One (Move call) xs ys → Evolves call xs ys
  added :
      (x : Item)
      → x.status ≡ pending
      → x.send_claim ≡ none
      → any (λ k. k == x.queue_id) (ids xs) ≡ false
      → ys ≡ xs ++ x ∷ []
      → Evolves call xs ys
  dropped : (k : String) → Removes call k → Dropped k xs ys → Evolves call xs ys

-- What a call does to a valid queue.
abbrev pub Steps : Call → Queue → Queue → Type 0
Steps call q q' = Evolves call (read_all q) (read_all q') × IsValid q'

pub stays : (call : Call) (q : Queue) → IsValid q → Steps call q q
stays call q v = (same refl, v)

pub wrote :
    {A : Type 0} (call : Call) (env : Env) (ys : List Item) (a : A) (q : Queue)
    → Evolves call (read_all q) ys
    → IsKeyed ys
    → Steps call q (write_all env ys a q).0
wrote call env ys a q e k = let (d, r, v) = write_all-done env ys a q k in (rw r e, v)

pub conclude-Steps :
    {A : Type 0} (call : Call) (R : A → Item → Item → Type 0) (env : Env) (absent : Outcome A)
    (q : Queue) (s : Scan A)
    → ((a : A) (x y : Item) → R a x y → Move call x y)
    → IsValid q
    → Yields R (read_all q) s
    → Steps call q (conclude env absent q s).0
unfolding conclude
conclude-Steps call R env absent q missing f v h = stays call q v
conclude-Steps call R env absent q (refused e) f v h = stays call q v
conclude-Steps call R env absent q (answered a) f v h = stays call q v
conclude-Steps call R env absent q (written ys a) f v h =
    let o = One-map (f a) h in
    wrote call env ys a q (moved o) (rw (One-ids (queue_id-Move call) o) v.keyed)

module _ {A : Type 0} (call : Call) (env : Env) (absent : Outcome A) (test : Item → Bool)
    (f : Item → Edit A) (moves : (a : A) (x y : Item) → f x ≡ write y a → Move call x y) (q : Queue)
    (v : IsValid q) where
  pub edit_first-Steps : Steps call q (conclude env absent q (edit_first test f (read_all q))).0
  edit_first-Steps =
      conclude-Steps call (Edits test f) env absent q _ (λ a x y e. moves a x y e.1) v
        (edit_first-Yields test f (read_all q))

  pub edit_last-Steps : Steps call q (conclude env absent q (edit_last test f (read_all q))).0
  edit_last-Steps =
      conclude-Steps call (Edits test f) env absent q _ (λ a x y e. moves a x y e.1) v
        (edit_last-Yields test f (read_all q))

-- What the loop of `remove` writes is keyed, and one record short.
pub Drops : String → List Item → Scan Item → Type 0
Drops k xs missing = Unit
Drops k xs (refused e) = Unit
Drops k xs (answered a) = Unit
Drops k xs (written ys a) = Dropped k xs ys

pub behind-Drops :
    (k : String) (x : Item) (xs : List Item) (s : Scan Item)
    → Drops k xs s
    → Drops k (x ∷ xs) (behind x s)
unfolding Drops
behind-Drops k x xs missing h = tt
behind-Drops k x xs (refused e) h = tt
behind-Drops k x xs (answered a) h = tt
behind-Drops k x xs (written ys a) h = later h

pub drop_first-Drops :
    (queue_id : String) (xs : List Item) → Drops queue_id xs (drop_first queue_id xs)
unfolding drop_first Drops
drop_first-Drops queue_id [] = tt
drop_first-Drops queue_id (x ∷ xs) = elim (Bool-cases (has_id queue_id x)) [
  | inr other ↦ rw other (behind-Drops queue_id x xs _ (drop_first-Drops queue_id xs))
  | inl found ↦ elim (Option-cases (active_send_claim x)) [
    | inl free ↦ rw (found, free) (head found free)
    | inr (c, held) ↦ rw (found, held) tt
  ]
]

pub any-Dropped :
    (j k : String) {xs ys : List Item}
    → Dropped j xs ys
    → any (λ j. j == k) (ids xs) ≡ false
    → any (λ j. j == k) (ids ys) ≡ false
any-Dropped i k (head {x = x} e free) h = ground arith
any-Dropped i k (later {x = x} d) h = ground (arith, any-Dropped i k d)

pub IsKeyed-Dropped : (k : String) {xs ys : List Item} → Dropped k xs ys → IsKeyed xs → IsKeyed ys
IsKeyed-Dropped k (head e free) (p, d) = (p.2, d.1)
IsKeyed-Dropped k (later {x = x} r) (p, d) =
    let (p', d') = IsKeyed-Dropped k r (p.2, d.1) in
    ((p.0, p.1, p'), (any-Dropped k x.queue_id r d.0, d'))

pub drop-Steps :
    (k : String) (call : Call) (env : Env) (absent : Outcome Item) (q : Queue) (s : Scan Item)
    → IsValid q
    → Removes call k
    → Drops k (read_all q) s
    → Steps call q (conclude env absent q s).0
unfolding conclude Drops
drop-Steps k call env absent q missing v m h = stays call q v
drop-Steps k call env absent q (refused e) v m h = stays call q v
drop-Steps k call env absent q (answered a) v m h = stays call q v
drop-Steps k call env absent q (written ys a) v m h =
    wrote call env ys a q (dropped k m h) (IsKeyed-Dropped k h v.keyed)
