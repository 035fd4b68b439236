-- ===== src/Bus/Tests.antt =====
-- A concrete codec and file, and the theorems at them.
use chatbot_win.Prelude.{
  nonempty, leb, suc, add, ◌<◌, ℕ, zero, Bool, true, false, ◌&&◌, Option, none, some, List, [], ◌∷◌,
  ◌≤◌, ◌≡◌, refl, arith, nat_eq, if◌then◌else◌, length, take, is_space, lstrip, rstrip, strip,
}
use chatbot_win.Bus.Text.{lines_from}
use chatbot_win.Bus.File.{
  Stamps, Codec, content_of, linesep, last_byte, line_end, appended_bytes, append_jsonl_record,
}
use chatbot_win.Bus.Index.{
  sampled_file_fingerprint, file_identity, key_of, keys_of_lines, index_matches_source, build_index,
}
use chatbot_win.Bus.Once.{World, Disk, raised, append_jsonl_once, index_after}
use chatbot_win.Bus.Lines.{Line}
use chatbot_win.Bus.Keys.{Lawful, stored}
use chatbot_win.Bus.Held.{held}
use chatbot_win.Bus.Unique.{Event, call, stop, run, stopped, Fresh, run-at_most_once}
use chatbot_win.Bus.Abstract.{seen_as, add_once, run-add_once}
use chatbot_win.Bus.Stuck.{stopped-raises}

-- Two payloads, written as "é" and "è" between braces, with the keys "a" and "b".
abbrev encode : Bool → List ℕ
encode true = 123 ∷ 195 ∷ 169 ∷ 125 ∷ []
encode false = 123 ∷ 195 ∷ 168 ∷ 125 ∷ []

abbrev same_bytes : List ℕ → List ℕ → Bool
same_bytes [] [] = true
same_bytes [] (d ∷ ds) = false
same_bytes (b ∷ bs) [] = false
same_bytes (b ∷ bs) (d ∷ ds) = nat_eq b d && same_bytes bs ds

abbrev loads : List ℕ → Option Bool
loads bytes =
    if same_bytes bytes (encode true)
    then some true
    else if same_bytes bytes (encode false)
    then some false
    else none

-- A byte 195 opens a character of two bytes.
abbrev decodes_from : Bool → List ℕ → Bool
decodes_from true [] = false
decodes_from false [] = true
decodes_from true (b ∷ bs) = leb 128 b && decodes_from false bs
decodes_from false (b ∷ bs) = decodes_from (nat_eq b 195) bs

abbrev codec : Codec
codec = record {
  Payload = Bool;
  encode = encode;
  loads = loads;
  field = λ name p. if p then "a" else "b";
  decodes = decodes_from false;
}

codec-Lawful : Lawful codec
codec-Lawful = record { one_line = one_line; loads_encode = loads_encode; loads_part = loads_part }
  where
    one_line : (p : Bool) → Line (encode p)
    one_line true = (
      123,
      195 ∷ 169 ∷ 125 ∷ [],
      refl,
      ((refl, refl), ((refl, refl), ((refl, refl), ((refl, refl), tt)))),
    )
    one_line false = (
      123,
      195 ∷ 168 ∷ 125 ∷ [],
      refl,
      ((refl, refl), ((refl, refl), ((refl, refl), ((refl, refl), tt)))),
    )

    loads_encode : (p : Bool) → loads (encode p) ≡ some p
    loads_encode true = refl
    loads_encode false = refl

    loads_part :
        (p : Bool) (k : ℕ) → suc k < length (encode p) → loads (take (suc k) (encode p)) ≡ none
    loads_part true zero h = refl
    loads_part true (suc zero) h = refl
    loads_part true (suc (suc zero)) h = refl
    loads_part true (suc (suc (suc k))) h = absurd (omega arith)
    loads_part false zero h = refl
    loads_part false (suc zero) h = refl
    loads_part false (suc (suc zero)) h = refl
    loads_part false (suc (suc (suc k))) h = absurd (omega arith)

abbrev world : World
world = record { windows = true; digest = λ size bytes. "digest"; codec = codec }

abbrev now : ℕ → Stamps
now t = record { mtime_ns = t; ctime_ns = t; device = 1; file_id = 1 }

abbrev no_file : Disk
no_file = record { source = none; index = none }

no_file-Fresh : Fresh world "raw_id" no_file
unfolding lines_from
no_file-Fresh = (refl, λ key f. omega arith)

-- The second record is stopped behind its first four bytes of six, and appended again.
abbrev events : List (Event world)
events = call (now 3) false ∷ stop (now 2) false 4 ∷ call (now 1) true ∷ []

run-at_most_once_example :
    held codec "raw_id" "b" (content_of (run world "raw_id" events no_file).source) ≤ 1
run-at_most_once_example =
    run-at_most_once world "raw_id" codec-Lawful no_file no_file-Fresh events "b" refl

decodable : codec.decodes (content_of (run world "raw_id" events no_file).source) ≡ true
unfolding append_jsonl_once append_jsonl_record appended_bytes linesep last_byte line_end lines_from
    file_identity key_of keys_of_lines index_matches_source build_index index_after
    sampled_file_fingerprint strip lstrip rstrip is_space add
decodable = refl

run-add_once_example :
    seen_as codec
      (append_jsonl_once world (now 4) "raw_id" false (run world "raw_id" events no_file))
    ≡ add_once codec "raw_id" false (stored codec (run world "raw_id" events no_file).source)
run-add_once_example =
    run-add_once world "raw_id" codec-Lawful no_file no_file-Fresh events (now 4) false decodable

-- The first record alone.
abbrev first : List (Event world)
first = call (now 1) true ∷ []

first_decodable : codec.decodes (content_of (run world "raw_id" first no_file).source) ≡ true
unfolding append_jsonl_once append_jsonl_record appended_bytes linesep last_byte line_end lines_from
    file_identity key_of keys_of_lines index_matches_source build_index index_after
    sampled_file_fingerprint strip lstrip rstrip is_space add
first_decodable = refl

-- The second is stopped between the two bytes of its character.
torn_undecodable :
    codec.decodes
      (content_of (stopped world (now 2) false 2 (run world "raw_id" first no_file)).source)
    ≡ false
unfolding append_jsonl_once append_jsonl_record appended_bytes linesep last_byte line_end lines_from
    file_identity key_of keys_of_lines index_matches_source build_index index_after
    sampled_file_fingerprint strip lstrip rstrip is_space add
torn_undecodable = refl

keyed : nonempty (key_of codec "raw_id" (some true)) ≡ true
unfolding key_of strip
keyed = refl

stopped-raises_example :
    append_jsonl_once world
      (now 3)
      "raw_id"
      true
      (stopped world (now 2) false 2 (run world "raw_id" first no_file))
    ≡ (raised, stopped world (now 2) false 2 (run world "raw_id" first no_file))
stopped-raises_example =
    stopped-raises world "raw_id" codec-Lawful no_file no_file-Fresh first (now 2) false 2
      first_decodable torn_undecodable (now 3) true keyed
