-- ===== src/Bus/File.antt =====
-- A file of JSON lines as its bytes, and how a record is appended to it (jsonl_bus.py).
use chatbot_win.Prelude.{
  ℕ, String, Bool, Option, none, some, List, [], ◌∷◌, ◌++◌, nat_eq, if◌then◌else◌,
}

-- What `stat` tells of a file besides its size.
pub record Stamps : Type 0 where
  pub mtime_ns : ℕ
  pub ctime_ns : ℕ
  pub device : ℕ
  pub file_id : ℕ

pub record File : Type 0 where
  pub content : List ℕ
  pub stamps : Stamps

-- What Python's json, str and codecs do with payloads: `encode` is the text of `json.dumps` in UTF-8,
-- `loads` the dict that a line holds, if it holds one, `field` is `str(payload.get(name) or "")`, and
-- `decodes` tells whether bytes are UTF-8.
pub record Codec : Type 1 where
  pub Payload : Type 0
  pub encode : Payload → List ℕ
  pub loads : List ℕ → Option Payload
  pub field : String → Payload → String
  pub decodes : List ℕ → Bool

-- `os.linesep`
unfoldable pub linesep : Bool → List ℕ
linesep windows = if windows then 13 ∷ 10 ∷ [] else 10 ∷ []

-- The last byte read by `_append_jsonl_record`, if the file has any.
unfoldable pub last_byte : Option ℕ → List ℕ → Option ℕ
last_byte before [] = before
last_byte before (b ∷ bytes) = last_byte (some b) bytes

-- What is written before the record, so that it begins a line.
unfoldable pub line_end : Bool → Option ℕ → List ℕ
line_end windows none = []
line_end windows (some b) =
    if nat_eq b 13 then 10 ∷ [] else if nat_eq b 10 then [] else linesep windows

abbrev pub content_of : Option File → List ℕ
content_of none = []
content_of (some file) = file.content

-- All that one call writes.
unfoldable pub appended_bytes : Bool → (c : Codec) → c.Payload → List ℕ → List ℕ
appended_bytes windows c payload content =
    line_end windows (last_byte none content) ++ (c.encode payload ++ linesep windows)

-- `_append_jsonl_record`; `now` is what `stat` tells afterwards.
unfoldable pub append_jsonl_record : Bool → (c : Codec) → Stamps → Option File → c.Payload → File
append_jsonl_record windows c now file payload = record {
  content = content_of file ++ appended_bytes windows c payload (content_of file);
  stamps = now;
}
