-- ===== src/Keys/Distinct.antt =====
-- No key stands twice in the pool, and none is chosen twice (llm/key_pool.py).
use native.Mathlib.Nat.{mod-lt, mod-eq_of_lt, mod-eq-sub-mod}
use chatbot_win.Prelude.{
  mem-append, ℕ, zero, suc, String, Bool, true, false, not, ◌&&◌, ◌+◌, ◌-◌, ◌%◌, ◌<◌, ◌≤◌, ◌≡◌, ◌⊎◌,
  inl, inr, refl, ap, ◌∙◌, arith, List, [], ◌∷◌, ◌++◌, length, mem, ◌==◌, eq_iff, Bool-cases,
}
use chatbot_win.Keys.Pool.{
  Pool, ApiKeyRef, names_of, env_names, env_refs, add_entries, refs, ref_at, selected,
}

-- No text of the list equals an earlier one.
abbrev pub distinct : List String → Bool
distinct [] = true
distinct (x ∷ xs) = not (mem x xs) && distinct xs

distinct-append :
    (x : String) (xs : List String) → distinct (xs ++ (x ∷ [])) ≡ (distinct xs && not (mem x xs))
distinct-append x [] = refl
distinct-append x (y ∷ xs) =
    rw (mem-append y x xs, distinct-append x xs) (ground (arith, eq_iff x y, eq_iff y x))

names_of-append :
    (rs : List ApiKeyRef) (r : ApiKeyRef) → names_of (rs ++ (r ∷ [])) ≡ names_of rs ++ (r.ref ∷ [])
names_of-append [] r = refl
names_of-append (q ∷ rs) r = ap (λ l. q.ref ∷ l) (names_of-append rs r)

add_entries-distinct :
    (rs es : List ApiKeyRef)
    → distinct (names_of rs) ≡ true
    → distinct (names_of (add_entries rs es)) ≡ true
unfolding add_entries
add_entries-distinct rs [] d = d
add_entries-distinct rs (e ∷ es) d = elim (Bool-cases (mem e.ref (names_of rs))) [
  | inl m ↦ rw m (add_entries-distinct rs es d)
  | inr m ↦ rw m (
      add_entries-distinct (rs ++ (e ∷ [])) es
        (rw (names_of-append rs e, distinct-append e.ref (names_of rs), d, m) refl))
]

names_of-env_refs : (pool : Pool) (names : List String) → names_of (env_refs pool names) ≡ names
names_of-env_refs pool [] = refl
names_of-env_refs pool (n ∷ names) = ap (λ l. n ∷ l) (names_of-env_refs pool names)

pub distinct-refs :
    (pool : Pool)
    → distinct (env_names pool.provider) ≡ true
    → distinct (names_of (refs pool)) ≡ true
unfolding refs
distinct-refs pool d =
    add_entries-distinct (env_refs pool (env_names pool.provider)) _
      (ap (λ l. distinct l) (names_of-env_refs pool (env_names pool.provider)) ∙ d)

pub mem-ref_at :
    (i : ℕ) (rs : List ApiKeyRef) → i < length rs → mem (ref_at i rs) (names_of rs) ≡ true
mem-ref_at i [] h = absurd (omega arith)
mem-ref_at zero (r ∷ rs) h = ground (arith, eq_iff r.ref r.ref)
mem-ref_at (suc i) (r ∷ rs) h = ground (arith, mem-ref_at i rs (omega arith))

ref_at-injective :
    (i j : ℕ) (rs : List ApiKeyRef)
    → i < j
    → j < length rs
    → distinct (names_of rs) ≡ true
    → (ref_at i rs == ref_at j rs) ≡ false
ref_at-injective i zero rs h b d = absurd (omega arith)
ref_at-injective i (suc j) [] h b d = absurd (omega arith)
ref_at-injective zero (suc j) (r ∷ rs) h b d = elim (Bool-cases (r.ref == ref_at j rs)) [
  | inr e ↦ e
  | inl e ↦ absurd (
      ground (
        arith,
        d,
        ap (λ k. mem k (names_of rs)) ((eq_iff r.ref (ref_at j rs)).0 e)
            ∙ mem-ref_at j rs (omega arith),
      ))
]
ref_at-injective (suc i) (suc j) (r ∷ rs) h b d =
    ref_at-injective i j rs (omega arith) (omega arith) (ground (arith, d))

-- Of an index below a start that is in range the remainder is at most one turn away.
one_turn :
    (n start i : ℕ)
    → start < n
    → i < n
    → ((start + i < n) × ((start + i) % n ≡ start + i))
      ⊎ ((n ≤ start + i) × ((start + i) % n ≡ start + i - n))
one_turn n start i s h = elim (split (start + i) n) [
  | inl b ↦ inl (b, mod-eq_of_lt b)
  | inr b ↦ inr (b, mod-eq-sub-mod b ∙ mod-eq_of_lt (omega arith))
]
  where
    split : (a b : ℕ) → (a < b) ⊎ (b ≤ a)
    split a b = omega arith

module _ (rs : List ApiKeyRef) (start : ℕ) (d : distinct (names_of rs) ≡ true) where
  -- The ref that is chosen at an offset.
  abbrev chosen : ℕ → String
  chosen i = ref_at ((start + i) % length rs) rs

  apart :
      (p q : ℕ)
      → (p < q) ⊎ (q < p)
      → p < length rs
      → q < length rs
      → (ref_at q rs == ref_at p rs) ≡ false
  apart p q (inr h) a b = ref_at-injective q p rs h a d
  apart p q (inl h) a b = ground (
    arith,
    ref_at-injective p q rs h b d,
    eq_iff (ref_at q rs) (ref_at p rs),
    eq_iff (ref_at p rs) (ref_at q rs),
  )

  chosen-apart :
      (i j : ℕ) → start < length rs → i < j → j < length rs → (chosen j == chosen i) ≡ false
  chosen-apart i j s h b =
      apart ((start + i) % length rs) ((start + j) % length rs)
        (sides (one_turn (length rs) start i s (omega arith)) (one_turn (length rs) start j s b))
        (mod-lt (start + i) (omega arith)) (mod-lt (start + j) (omega arith))
    where
      Turn : ℕ → Type 0
      Turn k =
          ((start + k < length rs) × ((start + k) % length rs ≡ start + k))
          ⊎ ((length rs ≤ start + k) × ((start + k) % length rs ≡ start + k - length rs))

      sides :
          Turn i
          → Turn j
          → ((start + i) % length rs < (start + j) % length rs)
            ⊎ ((start + j) % length rs < (start + i) % length rs)
      sides (inl (a, e)) (inl (c, f)) = inl (omega arith)
      sides (inl (a, e)) (inr (c, f)) = inr (omega arith)
      sides (inr (a, e)) (inl (c, f)) = absurd (omega arith)
      sides (inr (a, e)) (inr (c, f)) = inl (omega arith)

  mem-selected :
      (i offset size : ℕ)
      → start < length rs
      → i < offset
      → offset + size ≤ length rs
      → mem (chosen i) (selected rs start offset size) ≡ false
  unfolding selected
  mem-selected i offset zero s h b = refl
  mem-selected i offset (suc size) s h b =
      rw (chosen-apart i offset s h (omega arith))
        (mem-selected i (offset + 1) size s (omega arith) (omega arith))

  pub distinct-selected :
      (offset size : ℕ)
      → start < length rs
      → offset + size ≤ length rs
      → distinct (selected rs start offset size) ≡ true
  unfolding selected
  distinct-selected offset zero s b = refl
  distinct-selected offset (suc size) s b =
      rw (mem-selected offset (offset + 1) size s (omega arith) (omega arith))
        (distinct-selected (offset + 1) size s (omega arith))
