-- ===== src/Keys/Assigned.antt =====
-- The keys that a conversation is assigned (llm/key_pool.py).
use native.Mathlib.Nat.{mod-lt}
use chatbot_win.Prelude.{
  ℕ, zero, suc, String, true, ◌+◌, ◌<◌, ◌≡◌, refl, ap, arith, min, max, none, List, [], ◌∷◌, length,
  mem, eq_refl, All, Dict, get, put, get-put,
}
use chatbot_win.Keys.Pool.{
  Pool, ApiKeyRef, names_of, env_names, refs, selected, stable_index, keys_for, remembered, assign,
}
use chatbot_win.Keys.Distinct.{distinct, distinct-refs, distinct-selected, mem-ref_at}

length-selected :
    (rs : List ApiKeyRef) (start offset size : ℕ) → length (selected rs start offset size) ≡ size
unfolding selected
length-selected rs start offset zero = refl
length-selected rs start offset (suc size) =
    ap (λ n. suc n) (length-selected rs start (offset + 1) size)

All-selected :
    (rs : List ApiKeyRef) (start offset size : ℕ)
    → 0 < length rs
    → All (λ k. mem k (names_of rs) ≡ true) (selected rs start offset size)
unfolding selected
All-selected rs start offset zero h = tt
All-selected rs start offset (suc size) h =
    (mem-ref_at _ rs (mod-lt (start + offset) h), All-selected rs start (offset + 1) size h)

-- Keys chosen for a conversation: as many as slots, at least one and at most all, none twice, and all of
-- the pool.
pub record Chosen (slots : ℕ) (rs : List ApiKeyRef) (keys : List String) : Type 0 where
  pub number : length keys ≡ max 1 (min slots (length rs))
  pub once : distinct keys ≡ true
  pub of_pool : All (λ k. mem k (names_of rs) ≡ true) keys

stable_index-lt : (hash : String → ℕ) (c : String) (n : ℕ) → 0 < n → stable_index hash c n < n
stable_index-lt hash c zero h = absurd (omega arith)
stable_index-lt hash c (suc n) h = mod-lt (hash c) h

keys_for-Chosen :
    (hash : String → ℕ) (c : String) (slots : ℕ) (rs : List ApiKeyRef)
    → 0 < length rs
    → distinct (names_of rs) ≡ true
    → Chosen slots rs (keys_for hash c slots rs)
keys_for-Chosen hash c slots [] h d = absurd (omega arith)
keys_for-Chosen hash c slots (r ∷ rs) h d = record {
  number = length-selected (r ∷ rs) _ 0 _;
  once =
      distinct-selected (r ∷ rs) _ d 0 _ (stable_index-lt hash c (length (r ∷ rs)) h) (omega arith);
  of_pool = All-selected (r ∷ rs) _ 0 _ h;
}

-- A conversation that has no keys yet, and a pool that has some, of which no two environment names are
-- equal: it is assigned as many keys as it has slots, at least one and at most all, none twice, each one
-- of the pool; and whatever pool and slots a later call comes with, it gives the same keys.
pub assign-Chosen :
    (hash : String → ℕ) (pool later : Pool) (c : String) (slots more : ℕ) (a : Dict (List String))
    → get c a ≡ none
    → 0 < length (refs pool)
    → distinct (env_names pool.provider) ≡ true
    → Chosen slots (refs pool) (assign hash pool c slots a).0
      × ((assign hash later c more (assign hash pool c slots a).1).0
          ≡ (assign hash pool c slots a).0)
unfolding assign
assign-Chosen hash pool later c slots more a fresh some_key d =
    rw fresh (keys_for-Chosen hash c slots (refs pool) some_key (distinct-refs pool d), kept)
  where
    kept :
        (remembered
          (get c (put c (keys_for hash c slots (refs pool)) a))
          (keys_for hash c more (refs later))
          c
          (put c (keys_for hash c slots (refs pool)) a)).0
        ≡ keys_for hash c slots (refs pool)
    kept = rw (get-put c c (keys_for hash c slots (refs pool)) a, eq_refl c) refl
