-- ===== src/Bus/Sound.antt =====
-- The index of a file never says more or less than the file, when it matches (jsonl_bus.py).
use chatbot_win.Prelude.{
  ℕ, String, Bool, true, false, not, Option, none, some, List, [], ◌++◌, ◌≤◌, ◌≡◌, ◌⊎◌, inl, inr,
  refl, arith, length, mem, nonempty, Bool-cases, nat_eq,
}
use chatbot_win.Bus.Text.{fresh, lines_from}
use chatbot_win.Bus.File.{Stamps, File, Codec, content_of, appended_bytes, append_jsonl_record}
use chatbot_win.Bus.Index.{
  keys_of_lines, Identity, Index, file_identity, index_matches_source, build_index,
}
use chatbot_win.Bus.Once.{World, Disk, index_after}
use chatbot_win.Bus.Keys.{mem-keys_of_lines}
use chatbot_win.Bus.Held.{grown, held}

pub content-append_jsonl_record :
    (windows : Bool) (c : Codec) (now : Stamps) (file : Option File) (payload : c.Payload)
    → (append_jsonl_record windows c now file payload).content
      ≡ content_of file ++ appended_bytes windows c payload (content_of file)
unfolding append_jsonl_record
content-append_jsonl_record windows c now file payload = refl

pub size-file_identity :
    (digest : ℕ → List ℕ → String) (file : Option File)
    → (file_identity digest file).source_size ≡ length (content_of file)
unfolding file_identity
size-file_identity digest none = refl
size-file_identity digest (some file) = refl

pub index_matches_source-size :
    (i : Index) (identity : Identity) (key_field : String)
    → index_matches_source i identity key_field ≡ true
    → i.identity.source_size ≡ identity.source_size
unfolding index_matches_source
index_matches_source-size i identity key_field e = ground arith

module _ (w : World) (key_field : String) where
  -- The set of keys is that of the contents.
  abbrev pub Lists : List String → List ℕ → Type 0
  Lists keys content =
      (key : String)
      → nonempty key ≡ true
      → mem key keys ≡ not (nat_eq (held w.codec key_field key content) 0)

  -- The index is of contents that were smaller, or lists the keys of these.
  pub record Fits (i : Index) (content : List ℕ) : Type 0 where
    pub size : i.identity.source_size ≤ length content
    pub keys : i.identity.source_size ≡ length content → Lists i.keys content

  abbrev pub FitsIf : Option Index → List ℕ → Type 0
  FitsIf none content = Unit
  FitsIf (some i) content = Fits i content

  pub FitsIf-grown :
      (i : Option Index) (content bytes : List ℕ) → FitsIf i content → FitsIf i (content ++ bytes)
  FitsIf-grown none content bytes f = tt
  FitsIf-grown (some i) content bytes f = elim (grown content bytes) [
    | inl e ↦ rw e f
    | inr h ↦ record { size = omega (arith, f.size); keys = λ e. absurd (omega (arith, f.size)) }
  ]

  pub record Sound (d : Disk) : Type 0 where
    pub once :
        (key : String) → nonempty key ≡ true → held w.codec key_field key (content_of d.source) ≤ 1
    pub fits : FitsIf d.index (content_of d.source)

  pub Fits-index_after :
      (source : Option File) (keys : List String)
      → Lists keys (content_of source)
      → Fits (index_after w source key_field keys) (content_of source)
  unfolding index_after
  Fits-index_after source keys l = record {
    size = omega (arith, size-file_identity w.digest source);
    keys = λ e. l;
  }

  abbrev built : Option File → Index
  built source = record {
    identity = file_identity w.digest source;
    version = 2;
    key_field = key_field;
    keys = keys_of_lines w.codec key_field [] (lines_from fresh (content_of source));
  }

  -- What `_build_index` gives.
  pub build_index-cases :
      (source : Option File)
      → ((build_index w.digest w.codec source key_field ≡ none)
          × (w.codec.decodes (content_of source) ≡ false))
        ⊎ ((i : Index) × (build_index w.digest w.codec source key_field ≡ some i)
            × Lists i.keys (content_of source)
            × Fits i (content_of source))
  unfolding build_index
  build_index-cases source = elim (Bool-cases (w.codec.decodes (content_of source))) [
    | inr e ↦ inl (rw e refl, e)
    | inl e ↦ inr (
      built source,
      rw e refl,
      lists,
      record { size = omega (arith, size-file_identity w.digest source); keys = λ same. lists },
    )
  ]
    where
      lists :
          Lists
            (keys_of_lines w.codec key_field [] (lines_from fresh (content_of source)))
            (content_of source)
      lists key f =
          mem-keys_of_lines w.codec key_field key (lines_from fresh (content_of source)) [] f
