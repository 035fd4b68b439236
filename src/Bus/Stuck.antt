-- ===== src/Bus/Stuck.antt =====
-- What a write that stopped inside a character does to the calls after it (jsonl_bus.py).
use chatbot_win.Prelude.{
  ℕ, String, true, false, Option, none, some, List, ◌++◌, ◌<◌, ◌≡◌, inl, inr, refl, sym, ap, ◌∙◌,
  arith, length, nonempty, Bool-cases,
}
use chatbot_win.Bus.File.{Stamps, File, content_of}
use chatbot_win.Bus.Index.{Index, file_identity, index_matches_source, key_of, build_index}
use chatbot_win.Bus.Once.{World, Disk, raised, append_jsonl_once}
use chatbot_win.Bus.Keys.{Lawful}
use chatbot_win.Bus.Held.{grown}
use chatbot_win.Bus.Sound.{size-file_identity, index_matches_source-size, FitsIf}
use chatbot_win.Bus.Unique.{Event, run, stopped, Fresh, Fresh-Sound, run-Sound}

module _ (w : World) (key_field : String) where
  -- The index is of a smaller file.
  abbrev Older : Option Index → List ℕ → Type 0
  Older none content = Unit
  Older (some i) content = i.identity.source_size < length content

  FitsIf-Older :
      (index : Option Index) (old content : List ℕ)
      → FitsIf w key_field index old
      → length old < length content
      → Older index content
  FitsIf-Older none old content f h = tt
  FitsIf-Older (some i) old content f h = omega (arith, f.size)

  -- A file that cannot be decoded, under an index that does not match.
  undecodable_raises :
      (now : Stamps) (payload : w.codec.Payload) (source : Option File) (index : Option Index)
      → Older index (content_of source)
      → w.codec.decodes (content_of source) ≡ false
      → nonempty (key_of w.codec key_field (some payload)) ≡ true
      → append_jsonl_once w now key_field payload (record { source = source; index = index })
        ≡ (raised, record { source = source; index = index })
  unfolding append_jsonl_once build_index
  undecodable_raises now payload source none o u f = rw (f, u) refl
  undecodable_raises now payload source (some i) o u f =
      elim (Bool-cases (index_matches_source i (file_identity w.digest source) key_field)) [
        | inr e ↦ rw (f, e, u) refl
        | inl e ↦ absurd (
            omega (
              arith,
              index_matches_source-size i _ key_field e,
              size-file_identity w.digest source,
            ))
      ]

changed_size :
    (w : World) (content bytes : List ℕ)
    → w.codec.decodes content ≡ true
    → w.codec.decodes (content ++ bytes) ≡ false
    → length content < length (content ++ bytes)
changed_size w content bytes a b = elim (grown content bytes) [
  | inr h ↦ h
  | inl e ↦ absurd (ground (arith, sym a ∙ (ap (λ c. w.codec.decodes c) (sym e) ∙ b)))
]

-- When a call was stopped in its write so that the text, which could be decoded before, no longer can,
-- every later call with a key raises and leaves the file and the index as they are, so that no such call
-- ever appends again.
pub stopped-raises :
    (w : World) (key_field : String)
    → Lawful w.codec
    → (d : Disk) → Fresh w key_field d
    → (events : List (Event w)) (now : Stamps) (payload : w.codec.Payload) (n : ℕ)
    → w.codec.decodes (content_of (run w key_field events d).source) ≡ true
    → w.codec.decodes (content_of (stopped w now payload n (run w key_field events d)).source)
      ≡ false
    → (then_now : Stamps) (next : w.codec.Payload)
    → nonempty (key_of w.codec key_field (some next)) ≡ true
    → append_jsonl_once w then_now key_field next
        (stopped w now payload n (run w key_field events d))
      ≡ (raised, stopped w now payload n (run w key_field events d))
stopped-raises w key_field law d fresh_d events now payload n a b then_now next f =
    let s = run-Sound w key_field law events d (Fresh-Sound w key_field d fresh_d) in
    let t = stopped w now payload n (run w key_field events d) in
    undecodable_raises w key_field then_now next t.source t.index
      (FitsIf-Older w key_field t.index _ (content_of t.source) s.fits (changed_size w _ _ a b)) b f
