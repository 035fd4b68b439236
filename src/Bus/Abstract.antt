-- ===== src/Bus/Abstract.antt =====
-- The abstract view of a file of JSON lines: the list of its records (jsonl_bus.py).
use chatbot_win.Prelude.{
  String, Bool, true, false, not, Option, some, List, [], ◌∷◌, ◌++◌, ◌≡◌, inl, inr, refl, sym, ap,
  ◌∙◌, arith, if◌then◌else◌, nonempty, ◌&&◌, count, Bool-cases, nat_eq,
}
use chatbot_win.Bus.Text.{fresh, lines_from}
use chatbot_win.Bus.File.{Stamps, File, Codec, content_of, append_jsonl_record}
use chatbot_win.Bus.Index.{key_of}
use chatbot_win.Bus.Once.{World, Disk, Answer, appended, duplicate, append_jsonl_once}
use chatbot_win.Bus.Keys.{Lawful, stored, has_key, records}
use chatbot_win.Bus.Held.{records-appended}
use chatbot_win.Bus.Sound.{content-append_jsonl_record, Sound}
use chatbot_win.Bus.Served.{Served, unreadable, known, new, append_jsonl_once-Served}
use chatbot_win.Bus.Unique.{Event, run, Fresh, Fresh-Sound, run-Sound, append_jsonl_once-blank}

-- A key that is not blank and that a record has already.
abbrev pub is_known : (c : Codec) → String → c.Payload → List c.Payload → Bool
is_known c key_field payload ps =
    nonempty (key_of c key_field (some payload))
    && not (nat_eq (count (has_key c key_field (key_of c key_field (some payload))) ps) 0)

-- What one keyed append promises of the list.
abbrev pub add_once : (c : Codec) → String → c.Payload → List c.Payload → Answer × List c.Payload
add_once c key_field payload ps =
    if is_known c key_field payload ps then (duplicate, ps) else (appended, ps ++ (payload ∷ []))

-- The abstract view of a call's result.
abbrev pub seen_as : (c : Codec) → Answer × Disk → Answer × List c.Payload
seen_as c r = (r.0, stored c r.1.source)

seen_ext :
    {P : Type 0} (a b : Answer) (xs ys : List P)
    → a ≡ b
    → xs ≡ ys
    → ◌≡◌ {A = Answer × List P} (a, xs) (b, ys)
seen_ext a b xs ys e f = rw (e, f) refl

module _ (w : World) (key_field : String) (law : Lawful w.codec) where
  stored-append :
      (now : Stamps) (payload : w.codec.Payload) (file : Option File)
      → stored w.codec (some (append_jsonl_record w.windows w.codec now file payload))
        ≡ stored w.codec file ++ (payload ∷ [])
  stored-append now payload file =
      ap (λ bytes. records w.codec (lines_from fresh bytes))
        (content-append_jsonl_record w.windows w.codec now file payload)
      ∙ records-appended w.codec law w.windows payload (content_of file)

  Served-add_once :
      (now : Stamps) (payload : w.codec.Payload) (d : Disk) (r : Answer × Disk)
      → w.codec.decodes (content_of d.source) ≡ true
      → nonempty (key_of w.codec key_field (some payload)) ≡ true
      → Served w key_field now payload d r
      → seen_as w.codec r ≡ add_once w.codec key_field payload (stored w.codec d.source)
  Served-add_once now payload d r u f (unreadable v e) = absurd (ground (arith, sym u ∙ v))
  Served-add_once now payload d r u f (known h a same fits) =
      let k : is_known w.codec key_field payload (stored w.codec d.source) ≡ true =
        rw f (ground (arith, h)) in
      seen_ext r.0 duplicate _ (stored w.codec d.source) a (ap (λ o. stored w.codec o) same)
      ∙ rw k refl
  Served-add_once now payload d r u f (new z a same fits) =
      let k : is_known w.codec key_field payload (stored w.codec d.source) ≡ false =
        rw f (ground (arith, z)) in
      seen_ext r.0 appended _ (stored w.codec d.source ++ (payload ∷ [])) a
        (ap (λ o. stored w.codec o) same ∙ stored-append now payload d.source)
      ∙ rw k refl

  once-add_once :
      (now : Stamps) (payload : w.codec.Payload) (d : Disk)
      → Sound w key_field d
      → w.codec.decodes (content_of d.source) ≡ true
      → seen_as w.codec (append_jsonl_once w now key_field payload d)
        ≡ add_once w.codec key_field payload (stored w.codec d.source)
  once-add_once now payload d s u =
      elim (Bool-cases (nonempty (key_of w.codec key_field (some payload)))) [
        | inl f ↦
            Served-add_once now payload d _ u f
              (append_jsonl_once-Served w key_field law now payload d f s.fits)
        | inr f ↦
            ap (λ r. seen_as w.codec r) (append_jsonl_once-blank w key_field law now payload d f)
            ∙ seen_ext appended appended _ (stored w.codec d.source ++ (payload ∷ [])) refl
                (stored-append now payload d.source)
            ∙ rw f refl
      ]

-- Whatever keyed appends came before, each whole or stopped in its write, on a file that began without
-- an index and with no key twice: when its text can be decoded, the next append does to its records what
-- `add_once` says. A new record goes to the end and all others stay, also behind a torn line; a record
-- with a known key changes nothing.
pub run-add_once :
    (w : World) (key_field : String)
    → Lawful w.codec
    → (d : Disk) → Fresh w key_field d
    → (events : List (Event w)) (now : Stamps) (payload : w.codec.Payload)
    → w.codec.decodes (content_of (run w key_field events d).source) ≡ true
    → seen_as w.codec (append_jsonl_once w now key_field payload (run w key_field events d))
      ≡ add_once w.codec key_field payload (stored w.codec (run w key_field events d).source)
run-add_once w key_field law d fresh_d events now payload u =
    once-add_once w key_field law now payload (run w key_field events d)
      (run-Sound w key_field law events d (Fresh-Sound w key_field d fresh_d)) u
