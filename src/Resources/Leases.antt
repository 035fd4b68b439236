-- ===== src/Resources/Leases.antt =====
-- Whose the slot files are (resource_gate.py, `_acquire_slot_file` and `_release_slot_file`). Only a file
-- lock is relied on; the semaphores of a process make callers wait earlier.
use chatbot_win.Prelude.{
  ℕ, zero, suc, Bool, true, false, not, ◌&&◌, ◌||◌, none, some, List, [], ◌∷◌, ◌+◌, ◌<◌, ◌≤◌, ◌≡◌,
  ◌⊎◌, inl, inr, refl, ap, ◌∙◌, arith, length, count, nat_eq,
}
use chatbot_win.Resources.Slots.{acquire_slot, release_slot, next_slot}

abbrev pub locked_slots : List Bool → ℕ
locked_slots slots = count (λ b. b) slots

abbrev pub locked_at : ℕ → List Bool → Bool
locked_at i [] = false
locked_at zero (b ∷ slots) = b
locked_at (suc i) (b ∷ slots) = locked_at i slots

-- The slot `i` was free, and in `after` it is locked and nothing else has changed.
pub record Leased (n : ℕ) (slots : List Bool) (i : ℕ) (after : List Bool) : Type 0 where
  pub below : i < n
  pub was_free : locked_at i slots ≡ false
  pub locked : (j : ℕ) → locked_at j after ≡ (nat_eq j i || locked_at j slots)
  pub one_more : locked_slots after ≡ locked_slots slots + 1
  pub files : (length after ≡ length slots) ⊎ (length after ≤ n)

at_zero :
    (b : Bool) (slots : List Bool) (j : ℕ)
    → locked_at j (true ∷ slots) ≡ (nat_eq j 0 || locked_at j (b ∷ slots))
at_zero b slots zero = refl
at_zero b slots (suc j) = ground arith

at_empty : (j : ℕ) → locked_at j (true ∷ []) ≡ (nat_eq j 0 || false)
at_empty zero = refl
at_empty (suc j) = ground arith

at_next :
    (slots after : List Bool) (i : ℕ)
    → ((j : ℕ) → locked_at j after ≡ (nat_eq j i || locked_at j slots))
    → (j : ℕ) → locked_at j (true ∷ after) ≡ (nat_eq j (i + 1) || locked_at j (true ∷ slots))
at_next slots after i h zero = ground arith
at_next slots after i h (suc j) = ground (arith, h j)

at_suc : (i : ℕ) (b : Bool) (slots : List Bool) → locked_at (i + 1) (b ∷ slots) ≡ locked_at i slots
at_suc i b slots = let next : i + 1 ≡ suc i = omega arith in ap (λ k. locked_at k (b ∷ slots)) next

Leased-next :
    (n : ℕ) (slots : List Bool) (i : ℕ) (after : List Bool)
    → Leased n slots i after
    → Leased (suc n) (true ∷ slots) (i + 1) (true ∷ after)
Leased-next n slots i after l = record {
  below = omega (arith, l.below);
  was_free = at_suc i true slots ∙ l.was_free;
  locked = at_next slots after i l.locked;
  one_more = omega (arith, l.one_more);
  files = elim l.files [ inl e ↦ inl (omega arith) | inr e ↦ inr (omega arith) ];
}

pub acquire_slot-cases :
    (n : ℕ) (slots : List Bool)
    → (acquire_slot n slots ≡ none)
      ⊎ ((i : ℕ) × (after : List Bool) × (acquire_slot n slots ≡ some (i, after))
          × Leased n slots i after)
unfolding acquire_slot
acquire_slot-cases zero slots = inl refl
acquire_slot-cases (suc n) [] = inr (
  0,
  true ∷ [],
  refl,
  record {
    below = omega arith;
    was_free = refl;
    locked = at_empty;
    one_more = refl;
    files = inr (omega arith);
  },
)
acquire_slot-cases (suc n) (false ∷ slots) = inr (
  0,
  true ∷ slots,
  refl,
  record {
    below = omega arith;
    was_free = refl;
    locked = at_zero false slots;
    one_more = omega arith;
    files = inl refl;
  },
)
acquire_slot-cases (suc n) (true ∷ slots) = elim (acquire_slot-cases n slots) [
  | inl e ↦ inl (ap next_slot e)
  | inr (i, after, e, l) ↦ inr (i + 1, true ∷ after, ap next_slot e, Leased-next n slots i after l)
]

pub release-locked :
    (i j : ℕ) (slots : List Bool)
    → locked_at j (release_slot i slots) ≡ (locked_at j slots && not (nat_eq j i))
unfolding release_slot
release-locked i j [] = refl
release-locked zero zero (b ∷ slots) = ground arith
release-locked zero (suc j) (b ∷ slots) = ground arith
release-locked (suc i) zero (b ∷ slots) = ground arith
release-locked (suc i) (suc j) (b ∷ slots) = ground (arith, release-locked i j slots)

pub release-length : (i : ℕ) (slots : List Bool) → length (release_slot i slots) ≡ length slots
unfolding release_slot
release-length i [] = refl
release-length zero (b ∷ slots) = refl
release-length (suc i) (b ∷ slots) = omega (arith, release-length i slots)

pub release-one_less :
    (i : ℕ) (slots : List Bool)
    → locked_at i slots ≡ true
    → locked_slots (release_slot i slots) + 1 ≡ locked_slots slots
unfolding release_slot
release-one_less i [] h = cc
release-one_less zero (b ∷ slots) h = rw h (omega arith)
release-one_less (suc i) (b ∷ slots) h = ground (arith, release-one_less i slots h)

pub locked_slots-le : (slots : List Bool) → locked_slots slots ≤ length slots
locked_slots-le [] = omega arith
locked_slots-le (b ∷ slots) = ground (arith, locked_slots-le slots)

pub locked_at-lt : (i : ℕ) (slots : List Bool) → locked_at i slots ≡ true → i < length slots
locked_at-lt i [] h = cc
locked_at-lt zero (b ∷ slots) h = omega arith
locked_at-lt (suc i) (b ∷ slots) h = omega (arith, locked_at-lt i slots h)
