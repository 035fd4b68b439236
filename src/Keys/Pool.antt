-- ===== src/Keys/Pool.antt =====
-- The keys of a provider, the removal of one, and which conversation uses which (llm/key_pool.py).
use chatbot_win.Prelude.{
  ℕ, zero, suc, String, Bool, true, false, not, ◌&&◌, ◌+◌, ◌%◌, Option, none, some, List, [], ◌∷◌,
  ◌++◌, min, max, length, mem, nonempty, Dict, get, put, ◌==◌, if◌then◌else◌,
}
use chatbot_win.Keys.Parse.{Parsed, parse_key_file_line}

-- The fields of `ProviderConfig` that count here.
pub record ProviderConfig : Type 0 where
  pub api_key_env : String
  pub api_key_env_pool : List String
  pub max_concurrency : ℕ

pub data Source : Type 0 where
  env file_env file_secret : Source

pub record ApiKeyRef : Type 0 where
  pub ref : String
  pub source : Source
  pub available : Bool

-- The provider, `os.environ` with the empty text for a name that is not set, the digest of secrets, and
-- the lines of the key file.
pub record Pool : Type 0 where
  pub provider : ProviderConfig
  pub environ : String → String
  pub digest : String → String
  pub key_file_lines : List String

-- `_env_names`
unfoldable pub env_names : ProviderConfig → List String
env_names p =
    if nonempty p.api_key_env && not (mem p.api_key_env p.api_key_env_pool)
    then p.api_key_env ∷ p.api_key_env_pool
    else p.api_key_env_pool

abbrev entry_ref : Pool → Parsed → ApiKeyRef
entry_ref pool parsed = by_secret parsed.ref parsed.secret
  where
    by_secret : String → Option String → ApiKeyRef
    by_secret ref none = record {
      ref = ref;
      source = file_env;
      available = nonempty (pool.environ ref);
    }
    by_secret ref (some value) = record {
      ref = ref;
      source = file_secret;
      available = nonempty value;
    }

abbrev entry_before : Pool → Option Parsed → List ApiKeyRef → List ApiKeyRef
entry_before pool none rest = rest
entry_before pool (some parsed) rest = entry_ref pool parsed ∷ rest

-- `_file_entries` of some of the lines
unfoldable pub file_entries : Pool → List String → List ApiKeyRef
file_entries pool [] = []
file_entries pool (line ∷ lines) =
    entry_before pool (parse_key_file_line pool.digest line) (file_entries pool lines)

abbrev pub names_of : List ApiKeyRef → List String
names_of [] = []
names_of (r ∷ rs) = r.ref ∷ names_of rs

abbrev pub env_refs : Pool → List String → List ApiKeyRef
env_refs pool [] = []
env_refs pool (name ∷ names) =
    record { ref = name; source = env; available = nonempty (pool.environ name) }
    ∷ env_refs pool names

-- The loop of `refs` over the entries of the file.
unfoldable pub add_entries : List ApiKeyRef → List ApiKeyRef → List ApiKeyRef
add_entries refs [] = refs
add_entries refs (e ∷ entries) =
    add_entries (if mem e.ref (names_of refs) then refs else refs ++ (e ∷ [])) entries

-- `refs`
unfoldable pub refs : Pool → List ApiKeyRef
refs pool =
    add_entries (env_refs pool (env_names pool.provider)) (file_entries pool pool.key_file_lines)

abbrev pub is_line_of : String → Option Parsed → Bool
is_line_of ref none = false
is_line_of ref (some parsed) = parsed.ref == ref

-- The loop of `remove_key`: the lines that stay, and whether one was left out.
unfoldable pub remove_line : (String → String) → String → List String → Bool × List String
remove_line digest ref [] = (false, [])
remove_line digest ref (line ∷ lines) =
    let rest = remove_line digest ref lines in
    if is_line_of ref (parse_key_file_line digest line)
    then (true, lines)
    else (rest.0, line ∷ rest.1)

-- `remove_key` on the key file
unfoldable pub remove_key : String → Pool → Bool × Pool
remove_key ref pool =
    let r = remove_line pool.digest ref pool.key_file_lines in
    if r.0 then (true, record pool { key_file_lines = r.1 }) else (false, pool)

-- `refs[i].ref` of an index in range
abbrev pub ref_at : ℕ → List ApiKeyRef → String
ref_at i [] = ""
ref_at zero (r ∷ rs) = r.ref
ref_at (suc i) (r ∷ rs) = ref_at i rs

-- `range(size)` from an offset on
unfoldable pub selected : List ApiKeyRef → ℕ → ℕ → ℕ → List String
selected rs start offset zero = []
selected rs start offset (suc size) =
    ref_at ((start + offset) % length rs) rs ∷ selected rs start (offset + 1) size

-- `_stable_index`; `hash` is the number that the digits of the digest spell.
abbrev pub stable_index : (String → ℕ) → String → ℕ → ℕ
stable_index hash value zero = 0
stable_index hash value (suc n) = hash value % suc n

abbrev pub keys_for : (String → ℕ) → String → ℕ → List ApiKeyRef → List String
keys_for hash conversation_id slots [] = []
keys_for hash conversation_id slots (r ∷ rs) =
    selected (r ∷ rs) (stable_index hash conversation_id (length (r ∷ rs))) 0
      (max 1 (min slots (length (r ∷ rs))))

abbrev pub remembered :
    Option (List String)
    → List String
    → String
    → Dict (List String)
    → List String × Dict (List String)
remembered (some keys) chosen conversation_id assignments = (keys, assignments)
remembered none chosen conversation_id assignments =
    (chosen, put conversation_id chosen assignments)

-- `ConversationKeyAssigner.assign`
unfoldable pub assign :
    (String → ℕ) → Pool → String → ℕ → Dict (List String) → List String × Dict (List String)
assign hash pool conversation_id slots assignments =
    remembered (get conversation_id assignments) (keys_for hash conversation_id slots (refs pool))
      conversation_id assignments
