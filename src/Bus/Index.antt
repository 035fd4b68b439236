-- ===== src/Bus/Index.antt =====
-- The sidecar index of the keys that a file holds (jsonl_bus.py).
use chatbot_win.Prelude.{
  ℕ, String, Bool, Option, none, some, List, [], ◌∷◌, ◌++◌, ◌-◌, ◌&&◌, nat_eq, ltb, if◌then◌else◌,
  length, take, drop, strip, nonempty, ◌==◌, add,
}
use chatbot_win.Bus.Text.{fresh, lines_from}
use chatbot_win.Bus.File.{Stamps, File, Codec, content_of}

pub record Identity : Type 0 where
  pub source_size : ℕ
  pub source_stamps : Stamps
  pub source_fingerprint : String

-- The keys are a set; the order in which they are stored is not told.
pub record Index : Type 0 where
  pub identity : Identity
  pub version : ℕ
  pub key_field : String
  pub keys : List String

-- `_sampled_file_fingerprint`: `digest` is the SHA-256 of a header with the size and of the bytes.
unfoldable pub sampled_file_fingerprint : (ℕ → List ℕ → String) → List ℕ → String
sampled_file_fingerprint digest content = digest (length content) (
    if ltb 65536 (length content)
    then take 65536 content
      ++ (0 ∷ 116 ∷ 97 ∷ 105 ∷ 108 ∷ 0 ∷ [])
      ++ drop (length content - 65536) content
    else take 65536 content)

-- `_file_identity`
unfoldable pub file_identity : (ℕ → List ℕ → String) → Option File → Identity
file_identity digest none = record {
  source_size = 0;
  source_stamps = record { mtime_ns = 0; ctime_ns = 0; device = 0; file_id = 0 };
  source_fingerprint = "missing";
}
file_identity digest (some file) = record {
  source_size = length file.content;
  source_stamps = file.stamps;
  source_fingerprint = sampled_file_fingerprint digest file.content;
}

-- `_index_matches_source`
unfoldable pub index_matches_source : Index → Identity → String → Bool
index_matches_source i identity key_field =
    nat_eq i.version 2
    && i.key_field == key_field
    && nonempty identity.source_fingerprint
    && i.identity.source_fingerprint == identity.source_fingerprint
    && nat_eq i.identity.source_size identity.source_size
    && nat_eq i.identity.source_stamps.mtime_ns identity.source_stamps.mtime_ns
    && nat_eq i.identity.source_stamps.ctime_ns identity.source_stamps.ctime_ns
    && nat_eq i.identity.source_stamps.device identity.source_stamps.device
    && nat_eq i.identity.source_stamps.file_id identity.source_stamps.file_id

-- The key of a record: `str(payload.get(key_field) or "").strip()`, where a record has one.
unfoldable pub key_of : (c : Codec) → String → Option c.Payload → String
key_of c key_field none = ""
key_of c key_field (some payload) = strip (c.field key_field payload)

-- The keys that are not blank, as a set, of the records that the lines hold.
unfoldable pub keys_of_lines : (c : Codec) → String → List String → List (List ℕ) → List String
keys_of_lines c key_field keys [] = keys
keys_of_lines c key_field keys (line ∷ lines) =
    let key = key_of c key_field (c.loads line) in
    keys_of_lines c key_field (if nonempty key then add key keys else keys) lines

-- `_build_index`; `none` is the exception that text which is not UTF-8 raises.
unfoldable pub build_index :
    (ℕ → List ℕ → String) → (c : Codec) → Option File → String → Option Index
build_index digest c file key_field =
    if c.decodes (content_of file)
    then some (record {
      identity = file_identity digest file;
      version = 2;
      key_field = key_field;
      keys = keys_of_lines c key_field [] (lines_from fresh (content_of file));
    })
    else none
