-- ===== src/Tasks/Dispatch/Counts.antt =====
-- The counters of the scheduling loop (tasks/manager.py) against the records that run.
use chatbot_win.Prelude.{
  ℕ, String, Bool, true, false, ◌&&◌, ◌||◌, some, List, [], ◌∷◌, ◌+◌, ◌≡◌, ap, inl, inr, arith, ltb,
  if◌then◌else◌, nonempty, mem, mem-add, add, get_or, get_or-put, Dict, count, find, ◌==◌, eq_iff,
  Bool-cases,
}
use chatbot_win.Tasks.Record.{
  Task, has_id, is_running, resource_of, mutex_scope, bump, active_by_resource,
  active_by_conversation, active_concurrency_keys, replace,
}

-- The task runs on the resource, in the conversation, under the concurrency key.
abbrev pub runs_on : String → Task → Bool
runs_on resource t = is_running t && resource_of t == resource

abbrev pub runs_in : String → Task → Bool
runs_in conversation_id t = is_running t && t.conversation_id == conversation_id

abbrev pub runs_under : String → Task → Bool
runs_under key t = is_running t && t.concurrency_key == key

abbrev pub one_if : Bool → ℕ
one_if b = if b then 1 else 0

pub count-replace :
    (P : Task → Bool) (xs : List Task) (k : String) (t u : Task)
    → find (has_id k) xs ≡ some t
    → count P (replace xs k u) + one_if (P t) ≡ count P xs + one_if (P u)
unfolding replace
count-replace P [] k t u h = cc
count-replace P (x ∷ xs) k t u h = elim (Bool-cases (has_id k x)) [
  | inl e ↦
      let at_head : x ≡ t = cc (rw e at h) in rw e (omega (arith, ap (λ z. one_if (P z)) at_head))
  | inr e ↦ rw e (omega (arith, count-replace P xs k t u (rw e at h)))
]

pub find-replace :
    (xs : List Task) (j k : String) (u : Task)
    → u.task_id ≡ k
    → k == j ≡ false
    → find (has_id j) (replace xs k u) ≡ find (has_id j) xs
unfolding replace
find-replace [] j k u e n = ground arith
find-replace (x ∷ xs) j k u e n =
    ground (arith, find-replace xs j k u e n, eq_iff x.task_id k, eq_iff x.task_id j, eq_iff k j)

pub get_or-bump :
    (k j : String) (d : Dict ℕ) → get_or j 0 (bump k d) ≡ get_or j 0 d + one_if (k == j)
get_or-bump k j d = rw get_or-put (ground (arith, eq_iff k j))

pub get_or-active_by_resource :
    (r : String) (d : Dict ℕ) (xs : List Task)
    → get_or r 0 (active_by_resource d xs) ≡ get_or r 0 d + count (runs_on r) xs
unfolding active_by_resource
get_or-active_by_resource r d [] = omega arith
get_or-active_by_resource r d (x ∷ xs) = elim (Bool-cases (is_running x)) [
  | inl e ↦ rw e (
      omega (
        arith,
        get_or-active_by_resource r (bump (resource_of x) d) xs,
        get_or-bump (resource_of x) r d,
      ))
  | inr e ↦ rw e (omega (arith, get_or-active_by_resource r d xs))
]

-- Texts that a test tells apart are not equal.
pub apart : (f : String → Bool) (a b : String) → f a ≡ false → f b ≡ true → a == b ≡ false
apart f a b h k = elim (Bool-cases (a == b)) [
  | inl e ↦ let same : f a ≡ f b = ap f ((eq_iff a b).0 e) in cc
  | inr e ↦ e
]

pub get_or-active_by_conversation :
    (c : String) (d : Dict ℕ) (xs : List Task)
    → nonempty c ≡ true
    → get_or c 0 (active_by_conversation d xs) ≡ get_or c 0 d + count (runs_in c) xs
unfolding active_by_conversation
get_or-active_by_conversation c d [] n = omega arith
get_or-active_by_conversation c d (x ∷ xs) n = elim (Bool-cases (is_running x)) [
  | inr e ↦ rw e (omega (arith, get_or-active_by_conversation c d xs n))
  | inl e ↦ elim (Bool-cases (nonempty x.conversation_id)) [
    | inl f ↦
        rw (e, f)
          (omega (
            arith,
            get_or-active_by_conversation c (bump x.conversation_id d) xs n,
            get_or-bump x.conversation_id c d,
          ))
    | inr f ↦
        rw (e, f, apart (λ a. nonempty a) x.conversation_id c f n)
          (omega (arith, get_or-active_by_conversation c d xs n))
  ]
]

pub mem-active_concurrency_keys :
    (k : String) (scopes : List String) (xs : List Task)
    → mutex_scope k ≡ true
    → mem k (active_concurrency_keys scopes xs) ≡ (mem k scopes || ltb 0 (count (runs_under k) xs))
unfolding active_concurrency_keys
mem-active_concurrency_keys k scopes [] m = ground arith
mem-active_concurrency_keys k scopes (x ∷ xs) m = elim (Bool-cases (is_running x)) [
  | inr e ↦ rw e (ground (arith, mem-active_concurrency_keys k scopes xs m))
  | inl e ↦ elim (Bool-cases (mutex_scope x.concurrency_key)) [
    | inl f ↦
        rw (e, f)
          (ground (
            arith,
            mem-active_concurrency_keys k (add x.concurrency_key scopes) xs m,
            mem-add x.concurrency_key k scopes,
          ))
    | inr f ↦
        rw (e, f, apart (λ a. mutex_scope a) x.concurrency_key k f m)
          (ground (arith, mem-active_concurrency_keys k scopes xs m))
  ]
]
