-- ===== src/Bus/Unique.antt =====
-- Histories of keyed appends, of which some end in the middle (jsonl_bus.py).
use chatbot_win.Prelude.{
  ℕ, String, Bool, true, false, none, some, List, [], ◌∷◌, ◌++◌, ◌+◌, ◌≤◌, ◌≡◌, inl, inr, refl, sym,
  ap, ◌∙◌, subst, arith, if◌then◌else◌, take, nonempty, eq_iff, Bool-cases,
}
use chatbot_win.Bus.File.{Stamps, content_of, appended_bytes, append_jsonl_record}
use chatbot_win.Bus.Index.{key_of}
use chatbot_win.Bus.Once.{
  World, Disk, Answer, appended, duplicate, raised, append_jsonl, append_jsonl_once,
}
use chatbot_win.Bus.Keys.{Lawful, has_key}
use chatbot_win.Bus.Held.{held, held-appended, held-torn}
use chatbot_win.Bus.Sound.{content-append_jsonl_record, FitsIf, FitsIf-grown, Sound}
use chatbot_win.Bus.Served.{Served, unreadable, known, new, append_jsonl_once-Served}

-- A call that returns, or one whose process ends when it has written the first `n` bytes.
pub data Event (w : World) : Type 0 where
  call : Stamps → w.codec.Payload → Event w
  stop : Stamps → w.codec.Payload → ℕ → Event w

abbrev is_appended : Answer → Bool
is_appended appended = true
is_appended duplicate = false
is_appended raised = false

abbrev pub stopped : (w : World) → Stamps → w.codec.Payload → ℕ → Disk → Disk
stopped w now payload n d = record d {
  source = some (record {
    content =
        content_of d.source
        ++ take n (appended_bytes w.windows w.codec payload (content_of d.source));
    stamps = now;
  });
}

abbrev pub apply : (w : World) → String → Event w → Disk → Disk
apply w key_field (call now payload) d = (append_jsonl_once w now key_field payload d).1
apply w key_field (stop now payload n) d =
    if is_appended (append_jsonl_once w now key_field payload d).0
    then stopped w now payload n d
    else d

-- The latest event stands first.
abbrev pub run : (w : World) → String → List (Event w) → Disk → Disk
run w key_field [] d = d
run w key_field (e ∷ events) d = apply w key_field e (run w key_field events d)

module _ (w : World) (key_field : String) (law : Lawful w.codec) where
  has_key-blank :
      (key : String) (payload : w.codec.Payload)
      → nonempty key ≡ true
      → nonempty (key_of w.codec key_field (some payload)) ≡ false
      → has_key w.codec key_field key payload ≡ false
  has_key-blank key payload f b = elim (Bool-cases (has_key w.codec key_field key payload)) [
    | inr e ↦ e
    | inl e ↦ absurd (ground (arith, ap nonempty ((eq_iff _ key).0 e)))
  ]

  -- One more record of a key that no record has, or of none.
  Room : Disk → w.codec.Payload → Type 0
  Room d payload =
      (key : String)
      → nonempty key ≡ true
      → held w.codec key_field key (content_of d.source)
          + (if has_key w.codec key_field key payload then 1 else 0)
        ≤ 1

  Room-blank :
      (d : Disk) (payload : w.codec.Payload)
      → Sound w key_field d
      → nonempty (key_of w.codec key_field (some payload)) ≡ false
      → Room d payload
  unfolding Room
  Room-blank d payload s b key f = rw (has_key-blank key payload f b) (omega (arith, s.once key f))

  Room-new :
      (d : Disk) (payload : w.codec.Payload)
      → Sound w key_field d
      → held w.codec key_field (key_of w.codec key_field (some payload)) (content_of d.source) ≡ 0
      → Room d payload
  unfolding Room
  Room-new d payload s z key f = elim (Bool-cases (has_key w.codec key_field key payload)) [
    | inr e ↦ rw e (omega (arith, s.once key f))
    | inl e ↦ rw e (
        omega
          (arith, ap (λ k. held w.codec key_field k (content_of d.source)) ((eq_iff _ key).0 e)))
  ]

  -- The state behind a whole append, given its parts.
  whole-Sound :
      (now : Stamps) (payload : w.codec.Payload) (d e : Disk)
      → Room d payload
      → e.source ≡ some (append_jsonl_record w.windows w.codec now d.source payload)
      → FitsIf w key_field e.index
          (content_of d.source ++ appended_bytes w.windows w.codec payload (content_of d.source))
      → Sound w key_field e
  unfolding Room
  whole-Sound now payload d e room same fits =
      let bytes =
        ap (λ o. content_of o) same
        ∙ content-append_jsonl_record w.windows w.codec now d.source payload in
      record {
        once = λ key f.
            rw
              (
                bytes,
                held-appended w.codec law w.windows key_field key payload (content_of d.source),
              )
              (room key f);
        fits = rw bytes fits;
      }

  stopped-Sound :
      (now : Stamps) (payload : w.codec.Payload) (n : ℕ) (d : Disk)
      → Room d payload
      → Sound w key_field d
      → Sound w key_field (stopped w now payload n d)
  unfolding Room
  stopped-Sound now payload n d room s = record {
    once = λ key f. omega (
      arith,
      room key f,
      held-torn w.codec law w.windows key_field key payload (content_of d.source) n,
    );
    fits = FitsIf-grown w key_field d.index (content_of d.source) _ s.fits;
  }

  call-Sound :
      (now : Stamps) (payload : w.codec.Payload) (d : Disk) (r : Answer × Disk)
      → Sound w key_field d
      → Served w key_field now payload d r
      → Sound w key_field r.1
  call-Sound now payload d r s (unreadable u e) = rw e s
  call-Sound now payload d r s (known h a same fits) =
      rw same (record { once = s.once; fits = fits })
  call-Sound now payload d r s (new z a same fits) =
      whole-Sound now payload d r.1 (Room-new d payload s z) same fits

  stop-Sound :
      (now : Stamps) (payload : w.codec.Payload) (n : ℕ) (d : Disk) (r : Answer × Disk)
      → Sound w key_field d
      → Served w key_field now payload d r
      → Sound w key_field (if is_appended r.0 then stopped w now payload n d else d)
  stop-Sound now payload n d r s (unreadable u e) = rw e s
  stop-Sound now payload n d r s (known h a same fits) = rw a s
  stop-Sound now payload n d r s (new z a same fits) =
      rw a (stopped-Sound now payload n d (Room-new d payload s z) s)

  pub append_jsonl_once-blank :
      (now : Stamps) (payload : w.codec.Payload) (d : Disk)
      → nonempty (key_of w.codec key_field (some payload)) ≡ false
      → append_jsonl_once w now key_field payload d ≡ (
        appended,
        record d { source = some (append_jsonl_record w.windows w.codec now d.source payload) },
      )
  unfolding append_jsonl_once append_jsonl
  append_jsonl_once-blank now payload d f = rw f refl

  apply-Sound :
      (e : Event w) (d : Disk) → Sound w key_field d → Sound w key_field (apply w key_field e d)
  apply-Sound (call now payload) d s =
      elim (Bool-cases (nonempty (key_of w.codec key_field (some payload)))) [
        | inl f ↦
            call-Sound now payload d _ s
              (append_jsonl_once-Served w key_field law now payload d f s.fits)
        | inr f ↦
            subst (λ r. Sound w key_field r.1) (sym (append_jsonl_once-blank now payload d f))
              (whole-Sound now payload d _ (Room-blank d payload s f) refl
                (FitsIf-grown w key_field d.index (content_of d.source) _ s.fits))
      ]
  apply-Sound (stop now payload n) d s =
      elim (Bool-cases (nonempty (key_of w.codec key_field (some payload)))) [
        | inl f ↦
            stop-Sound now payload n d _ s
              (append_jsonl_once-Served w key_field law now payload d f s.fits)
        | inr f ↦
            subst
              (λ r. Sound w key_field (if is_appended r.0 then stopped w now payload n d else d))
              (sym (append_jsonl_once-blank now payload d f))
              (stopped-Sound now payload n d (Room-blank d payload s f) s)
      ]

  pub run-Sound :
      (events : List (Event w)) (d : Disk)
      → Sound w key_field d
      → Sound w key_field (run w key_field events d)
  run-Sound [] d s = s
  run-Sound (e ∷ events) d s = apply-Sound e (run w key_field events d) (run-Sound events d s)

-- A file without index, in which no key stands twice.
abbrev pub Fresh : World → String → Disk → Type 0
Fresh w key_field d =
    (d.index ≡ none)
    × ((key : String) → nonempty key ≡ true → held w.codec key_field key (content_of d.source) ≤ 1)

pub Fresh-Sound :
    (w : World) (key_field : String) (d : Disk) → Fresh w key_field d → Sound w key_field d
Fresh-Sound w key_field d (e, h) = record { once = h; fits = rw e tt }

-- Started on a file in which no key stands twice, and that has no index: whatever payloads are appended
-- once, and wherever in its write any of these calls is stopped, no key that is not blank ever stands in
-- two records of the file.
pub run-at_most_once :
    (w : World) (key_field : String)
    → Lawful w.codec
    → (d : Disk) → Fresh w key_field d
    → (events : List (Event w)) (key : String) → nonempty key ≡ true
    → held w.codec key_field key (content_of (run w key_field events d).source) ≤ 1
run-at_most_once w key_field law d fresh_d events key f =
    (run-Sound w key_field law events d (Fresh-Sound w key_field d fresh_d)).once key f
