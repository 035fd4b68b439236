-- ===== src/Keys/Removed.antt =====
-- What the removal of a key leaves (llm/key_pool.py).
use chatbot_win.Prelude.{
  String, true, false, List, [], ◌∷◌, ◌++◌, ◌≡◌, ◌⊎◌, inl, inr, refl, ap, Bool-cases, all, not,
}
use chatbot_win.Keys.Parse.{parse_key_file_line}
use chatbot_win.Keys.Pool.{Pool, is_line_of, remove_line, remove_key}

-- The lines of the file around the first that holds the ref.
pub record FirstOf (digest : String → String) (ref : String) (lines : List String)
    (left : List String) : Type 0 where
  pub before : List String
  pub line : String
  pub after : List String
  pub split : lines ≡ before ++ (line ∷ after)
  pub joined : left ≡ before ++ after
  pub holds : is_line_of ref (parse_key_file_line digest line) ≡ true
  pub none_before : all (λ l. not (is_line_of ref (parse_key_file_line digest l))) before ≡ true

remove_line-cases :
    (digest : String → String) (ref : String) (lines : List String)
    → (((remove_line digest ref lines).0 ≡ false)
        × (all (λ l. not (is_line_of ref (parse_key_file_line digest l))) lines ≡ true))
      ⊎ (((remove_line digest ref lines).0 ≡ true)
          × FirstOf digest ref lines (remove_line digest ref lines).1)
unfolding remove_line
remove_line-cases digest ref [] = inl (refl, refl)
remove_line-cases digest ref (line ∷ lines) =
    elim (Bool-cases (is_line_of ref (parse_key_file_line digest line))) [
      | inl e ↦ rw e (
          inr (
            refl,
            record {
              before = [];
              line = line;
              after = lines;
              split = refl;
              joined = refl;
              holds = e;
              none_before = refl;
            },
          ))
      | inr e ↦ rw e (elim (remove_line-cases digest ref lines) [
        | inl (f, g) ↦ inl (f, g)
        | inr (f, g) ↦ inr (
          f,
          record {
            before = line ∷ g.before;
            line = g.line;
            after = g.after;
            split = ap (λ l. line ∷ l) g.split;
            joined = ap (λ l. line ∷ l) g.joined;
            holds = g.holds;
            none_before = rw e g.none_before;
          },
        )
      ])
    ]

-- A removal says that it found the key exactly when it takes one line out of the file, the first that
-- holds that ref, and leaves all others in order; where no line holds the ref, nothing changes.
pub remove_key-cases :
    (ref : String) (pool : Pool)
    → ((remove_key ref pool ≡ (false, pool))
        × (all (λ l. not (is_line_of ref (parse_key_file_line pool.digest l))) pool.key_file_lines
            ≡ true))
      ⊎ (((remove_key ref pool).0 ≡ true)
          × FirstOf pool.digest ref pool.key_file_lines (remove_key ref pool).1.key_file_lines)
unfolding remove_key
remove_key-cases ref pool = elim (remove_line-cases pool.digest ref pool.key_file_lines) [
  | inl (e, f) ↦ inl (rw e refl, f)
  | inr (e, f) ↦ inr (rw e (refl, f))
]
