-- ===== src/Router/Latest.antt =====
-- What the cooldown knows of a conversation, in memory or in its table, and what a mark and a read of it
-- leave (router/cooldown.py).
use chatbot_win.Prelude.{
  ℕ, String, false, Option, none, some, ◌≡◌, refl, sym, arith, inl, inr, Bool-cases, Option-cases,
  if◌then◌else◌, get, put, get-put, Dict, ◌==◌, eq_iff,
}
use chatbot_win.Router.Cooldown.{Cooldown, row_of, read_last_seen, upsert, mark}

-- The time that `_read_last_seen` gives.
abbrev first_of : Option ℕ → Option ℕ → Option ℕ
first_of none other = other
first_of (some t) other = some t

unfoldable pub latest : String → Dict ℕ → Option (Dict ℕ) → Option ℕ
latest c last_seen rows = first_of (get c last_seen) (row_of c rows)

abbrev pub last_of : String → Cooldown → Option ℕ
last_of c s = latest c s.last_seen s.rows

pub read_last_seen_lem : (c : String) (s : Cooldown) → (read_last_seen c s).0 ≡ last_of c s
unfolding read_last_seen latest
read_last_seen_lem c s = ground arith

row-upsert :
    (c d : String) (t : ℕ) (rows : Option (Dict ℕ))
    → d == c ≡ false
    → row_of c (upsert d t rows) ≡ row_of c rows
row-upsert c d t none n = refl
row-upsert c d t (some rows) n = rw (get-put, n) refl

latest-put :
    (c d : String) (t : ℕ) (last_seen : Dict ℕ) (rows : Option (Dict ℕ))
    → latest c (put d t last_seen) rows ≡ (if d == c then some t else latest c last_seen rows)
unfolding latest
latest-put c d t last_seen rows = rw get-put (ground (arith, eq_iff d c))

latest-upsert :
    (c d : String) (t : ℕ) (last_seen : Dict ℕ) (rows : Option (Dict ℕ))
    → d == c ≡ false
    → latest c last_seen (upsert d t rows) ≡ latest c last_seen rows
unfolding latest
latest-upsert c d t last_seen rows n = rw (row-upsert c d t rows n) refl

pub last-mark :
    (c d : String) (t : ℕ) (s : Cooldown)
    → last_of c (mark d t s) ≡ (if d == c then some t else last_of c s)
unfolding mark
last-mark c d t s =
    rw (latest-put c d t s.last_seen (upsert d t s.rows)) (elim (Bool-cases (d == c)) [
      | inl e ↦ rw e refl
      | inr e ↦ rw (e, latest-upsert c d t s.last_seen s.rows e) refl
    ])

known :
    (c d : String) (u : ℕ) (last_seen : Dict ℕ) (rows : Option (Dict ℕ))
    → d ≡ c
    → get d last_seen ≡ none
    → row_of d rows ≡ some u
    → some u ≡ latest c last_seen rows
unfolding latest
known c d u last_seen rows e n h = rw (sym e, n, h) refl

pub last-read : (c d : String) (s : Cooldown) → last_of c (read_last_seen d s).1 ≡ last_of c s
unfolding read_last_seen
last-read c d s = elim (Option-cases (get d s.last_seen)) [
  | inr (u, h) ↦ rw h refl
  | inl n ↦ elim (Option-cases (row_of d s.rows)) [
    | inl m ↦ rw (n, m) refl
    | inr (u, h) ↦
        rw (n, h, latest-put c d u s.last_seen s.rows)
          (elim (Bool-cases (d == c)) [
            | inr e ↦ rw e refl
            | inl e ↦ rw e (known c d u s.last_seen s.rows ((eq_iff d c).0 e) n h)
          ])
  ]
]

pub read-seconds : (d : String) (s : Cooldown) → (read_last_seen d s).1.seconds ≡ s.seconds
unfolding read_last_seen
read-seconds d s = elim (Option-cases (get d s.last_seen)) [
  | inr (u, h) ↦ rw h refl
  | inl n ↦ elim (Option-cases (row_of d s.rows)) [
    | inl m ↦ rw (n, m) refl
    | inr (u, h) ↦ rw (n, h) refl
  ]
]

pub mark-seconds : (d : String) (t : ℕ) (s : Cooldown) → (mark d t s).seconds ≡ s.seconds
unfolding mark
mark-seconds d t s = refl
