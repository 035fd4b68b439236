-- ===== src/Keys/Tests.antt =====
-- Concrete pools, and the theorems at them.
use chatbot_win.Prelude.{
  some, String, true, false, not, none, List, [], ◌∷◌, ◌≡◌, ◌⊎◌, ◌<◌, refl, arith, all, length, get,
  strip, lstrip, rstrip, is_space, starts_with, join, len,
}
use chatbot_win.Keys.Parse.{
  parse_key_file_line, is_name, lstrip_of, rstrip_of, words_only, secret_ref, split_once,
}
use chatbot_win.Keys.Pool.{
  Pool, env_names, file_entries, add_entries, refs, names_of, is_line_of, remove_key, assign,
}
use chatbot_win.Keys.Distinct.{distinct}
use chatbot_win.Keys.Assigned.{Chosen, assign-Chosen}
use chatbot_win.Keys.Removed.{FirstOf, remove_key-cases}

abbrev digest : String → String
digest secret = secret

abbrev pool : Pool
pool = record {
  provider = record {
    api_key_env = "MAIN_KEY";
    api_key_env_pool = "SPARE_KEY" ∷ [];
    max_concurrency = 1;
  };
  environ = λ name. "";
  digest = digest;
  key_file_lines = "# keys" ∷ "`A_1 = s1`" ∷ "SPARE_KEY" ∷ "B = 's2'" ∷ [];
}

four_refs : names_of (refs pool) ≡ "MAIN_KEY" ∷ "SPARE_KEY" ∷ "A_1:secret:s1" ∷ "B:secret:s2" ∷ []
unfolding refs env_names add_entries file_entries parse_key_file_line is_name lstrip_of rstrip_of
    words_only secret_ref split_once strip lstrip rstrip is_space starts_with join
four_refs = refl

-- A secret that was written between quotes is read without them.
quoted_secret :
    parse_key_file_line digest "K = \"s\"" ≡ some (record { ref = "K:secret:s"; secret = some "s" })
unfolding parse_key_file_line is_name lstrip_of rstrip_of words_only secret_ref split_once strip
    lstrip rstrip is_space starts_with join
quoted_secret = refl

some_key : 0 < length (refs pool)
unfolding refs env_names add_entries file_entries parse_key_file_line is_name lstrip_of rstrip_of
    words_only secret_ref split_once strip lstrip rstrip is_space starts_with join
some_key = omega arith

env_distinct : distinct (env_names pool.provider) ≡ true
unfolding env_names
env_distinct = refl

no_assignment : get {V = List String} "room" [] ≡ none
unfolding get
no_assignment = refl

assign-Chosen_example :
    Chosen 3 (refs pool) (assign len pool "room" 3 []).0
    × ((assign len pool "room" 1 (assign len pool "room" 3 []).1).0
        ≡ (assign len pool "room" 3 []).0)
assign-Chosen_example =
    assign-Chosen len pool pool "room" 3 1 [] no_assignment some_key env_distinct

remove_key-cases_example :
    ((remove_key "SPARE_KEY" pool ≡ (false, pool))
      × (all (λ l. not (is_line_of "SPARE_KEY" (parse_key_file_line digest l))) pool.key_file_lines
          ≡ true))
    ⊎ (((remove_key "SPARE_KEY" pool).0 ≡ true)
        × FirstOf digest "SPARE_KEY" pool.key_file_lines
            (remove_key "SPARE_KEY" pool).1.key_file_lines)
remove_key-cases_example = remove_key-cases "SPARE_KEY" pool
