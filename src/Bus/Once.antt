-- ===== src/Bus/Once.antt =====
-- `append_jsonl` and `append_jsonl_once` on the file and its index (jsonl_bus.py). Both hold the lock of
-- the file, so a call is one step unless the process ends in it.
use chatbot_win.Prelude.{
  ℕ, String, Bool, true, false, Option, none, some, List, if◌then◌else◌, nonempty, mem, add,
}
use chatbot_win.Bus.File.{Stamps, File, Codec, append_jsonl_record}
use chatbot_win.Bus.Index.{Index, file_identity, index_matches_source, key_of, build_index}

-- `index` is what `_read_index` gives: none where the file is missing or does not parse.
pub record Disk : Type 0 where
  pub source : Option File
  pub index : Option Index

-- `raised` is the exception of text that is not UTF-8.
pub data Answer : Type 0 where
  appended duplicate raised : Answer

-- What stays the same between the calls: the system's line ends, the digest, and the codec.
pub record World : Type 1 where
  pub windows : Bool
  pub digest : ℕ → List ℕ → String
  pub codec : Codec

-- `append_jsonl`
unfoldable pub append_jsonl : (w : World) → Stamps → w.codec.Payload → Disk → Disk
append_jsonl w now payload d = record d {
  source = some (append_jsonl_record w.windows w.codec now d.source payload);
}

abbrev pub matches : World → Option File → String → Option Index → Bool
matches w source key_field none = false
matches w source key_field (some i) =
    index_matches_source i (file_identity w.digest source) key_field

-- `_write_index` behind an append
unfoldable pub index_after : World → Option File → String → List String → Index
index_after w source key_field keys = record {
  identity = file_identity w.digest source;
  version = 2;
  key_field = key_field;
  keys = keys;
}

-- The rest of `append_jsonl_once` with the state of the index that it uses.
abbrev pub once_with :
    (w : World) → Stamps → String → String → w.codec.Payload → Disk → Index → Bool → Answer × Disk
once_with w now key_field key payload d state rebuilt =
    if mem key state.keys
    then (duplicate, if rebuilt then record d { index = some state } else d)
    else (
      appended,
      let source = some (append_jsonl_record w.windows w.codec now d.source payload) in
          record {
            source = source;
            index = some (index_after w source key_field (add key state.keys));
          },
    )

abbrev pub once_rebuilt :
    (w : World) → Stamps → String → String → w.codec.Payload → Disk → Option Index → Answer × Disk
once_rebuilt w now key_field key payload d none = (raised, d)
once_rebuilt w now key_field key payload d (some state) =
    once_with w now key_field key payload d state true

abbrev pub once_read :
    (w : World) → Stamps → String → String → w.codec.Payload → Disk → Option Index → Answer × Disk
once_read w now key_field key payload d none =
    once_rebuilt w now key_field key payload d (build_index w.digest w.codec d.source key_field)
once_read w now key_field key payload d (some i) =
    if matches w d.source key_field (some i)
    then once_with w now key_field key payload d i false
    else once_rebuilt w now key_field key payload d
        (build_index w.digest w.codec d.source key_field)

-- `append_jsonl_once`
unfoldable pub append_jsonl_once :
    (w : World) → Stamps → String → w.codec.Payload → Disk → Answer × Disk
append_jsonl_once w now key_field payload d =
    let key = key_of w.codec key_field (some payload) in
    if nonempty key
    then once_read w now key_field key payload d d.index
    else (appended, append_jsonl w now payload d)
