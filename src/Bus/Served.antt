-- ===== src/Bus/Served.antt =====
-- What a keyed call does to the file and its index (jsonl_bus.py).
use chatbot_win.Prelude.{
  ℕ, String, Bool, true, false, Option, none, some, List, ◌++◌, ◌≡◌, ◌≢◌, inl, inr, refl, sym, ◌∙◌,
  subst, arith, if◌then◌else◌, mem, add, mem-add, nonempty, Bool-cases,
}
use chatbot_win.Bus.File.{Stamps, File, content_of, appended_bytes, append_jsonl_record}
use chatbot_win.Bus.Index.{Index, file_identity, index_matches_source, key_of, build_index}
use chatbot_win.Bus.Once.{
  World, Disk, Answer, appended, duplicate, raised, index_after, once_with, once_rebuilt, once_read,
  append_jsonl_once,
}
use chatbot_win.Bus.Keys.{Lawful}
use chatbot_win.Bus.Held.{held, held-appended}
use chatbot_win.Bus.Sound.{
  content-append_jsonl_record, size-file_identity, index_matches_source-size, Lists, Fits, FitsIf,
  Fits-index_after, build_index-cases,
}

module _ (w : World) (key_field : String) where
  -- What a keyed call does, by what the file holds.
  pub data Served (now : Stamps) (payload : w.codec.Payload) (d : Disk) (r : Answer × Disk)
      : Type 0 where
    unreadable :
        w.codec.decodes (content_of d.source) ≡ false → r ≡ (raised, d) → Served now payload d r
    known :
        held w.codec key_field (key_of w.codec key_field (some payload)) (content_of d.source) ≢ 0
        → r.0 ≡ duplicate
        → r.1.source ≡ d.source
        → FitsIf w key_field r.1.index (content_of d.source)
        → Served now payload d r
    new :
        held w.codec key_field (key_of w.codec key_field (some payload)) (content_of d.source) ≡ 0
        → r.0 ≡ appended
        → r.1.source ≡ some (append_jsonl_record w.windows w.codec now d.source payload)
        → FitsIf w key_field r.1.index
            (content_of d.source ++ appended_bytes w.windows w.codec payload (content_of d.source))
        → Served now payload d r

  module _ (law : Lawful w.codec) (now : Stamps) (payload : w.codec.Payload) where
    Lists-append :
        (keys : List String) (content : List ℕ)
        → Lists w key_field keys content
        → Lists w key_field
            (add (key_of w.codec key_field (some payload)) keys)
            (content ++ appended_bytes w.windows w.codec payload content)
    Lists-append keys content l key f =
        rw
          (
            mem-add (key_of w.codec key_field (some payload)) key keys,
            held-appended w.codec law w.windows key_field key payload content,
            l key f,
          )
          (ground arith)

    once_with-Served :
        (d : Disk) (state : Index) (rebuilt : Bool)
        → nonempty (key_of w.codec key_field (some payload)) ≡ true
        → FitsIf w key_field d.index (content_of d.source)
        → Fits w key_field state (content_of d.source)
        → Lists w key_field state.keys (content_of d.source)
        → Served now payload d (
            once_with w now key_field
              (key_of w.codec key_field (some payload))
              payload
              d
              state
              rebuilt)
    once_with-Served d state rebuilt f fits here l =
        elim (Bool-cases (mem (key_of w.codec key_field (some payload)) state.keys)) [
          | inl e ↦ rw e (
              known
                (λ z.
                  absurd (ground (arith, sym e ∙ l (key_of w.codec key_field (some payload)) f, z)))
                refl (same_source rebuilt) (kept rebuilt))
          | inr e ↦ rw e (
              new (ground (arith, sym e ∙ l (key_of w.codec key_field (some payload)) f)) refl refl
                (listed (append_jsonl_record w.windows w.codec now d.source payload)
                  (content-append_jsonl_record w.windows w.codec now d.source payload)))
        ]
      where
        same_source :
            (b : Bool) → (if b then record d { index = some state } else d).source ≡ d.source
        same_source true = refl
        same_source false = refl

        kept :
            (b : Bool)
            → FitsIf w key_field
                (if b then record d { index = some state } else d).index
                (content_of d.source)
        kept true = here
        kept false = fits

        listed :
            (file : File)
            → file.content
              ≡ content_of d.source
                ++ appended_bytes w.windows w.codec payload (content_of d.source)
            → Fits w key_field
                (index_after w
                  (some file)
                  key_field
                  (add (key_of w.codec key_field (some payload)) state.keys))
                (content_of d.source
                  ++ appended_bytes w.windows w.codec payload (content_of d.source))
        listed file e =
            subst
              (λ bytes.
                Fits w key_field
                  (index_after w (some file) key_field
                    (add (key_of w.codec key_field (some payload)) state.keys))
                  bytes)
              e
              (Fits-index_after w key_field (some file) _ (
                subst
                  (λ bytes.
                    Lists w key_field (add (key_of w.codec key_field (some payload)) state.keys)
                      bytes)
                  (sym e) (Lists-append state.keys (content_of d.source) l)))

    once_rebuilt-Served :
        (d : Disk)
        → nonempty (key_of w.codec key_field (some payload)) ≡ true
        → FitsIf w key_field d.index (content_of d.source)
        → Served now payload d (
            once_rebuilt w now key_field
              (key_of w.codec key_field (some payload))
              payload
              d
              (build_index w.digest w.codec d.source key_field))
    once_rebuilt-Served d f fits = elim (build_index-cases w key_field d.source) [
      | inl (e, u) ↦ rw e (unreadable u refl)
      | inr (i, e, l, g) ↦ rw e (once_with-Served d i true f fits g l)
    ]

    once_read-Served :
        (d : Disk) (index : Option Index)
        → nonempty (key_of w.codec key_field (some payload)) ≡ true
        → d.index ≡ index
        → FitsIf w key_field d.index (content_of d.source)
        → Served now payload d
            (once_read w now key_field (key_of w.codec key_field (some payload)) payload d index)
    once_read-Served d none f same fits = once_rebuilt-Served d f fits
    once_read-Served d (some i) f same fits =
        let g : Fits w key_field i (content_of d.source) =
          subst (λ o. FitsIf w key_field o (content_of d.source)) same fits in
        elim (Bool-cases (index_matches_source i (file_identity w.digest d.source) key_field)) [
          | inl e ↦ rw e (
              once_with-Served d i false f fits g (
                g.keys (
                  index_matches_source-size i _ key_field e
                  ∙ size-file_identity w.digest d.source)))
          | inr e ↦ rw e (once_rebuilt-Served d f fits)
        ]

    pub append_jsonl_once-Served :
        (d : Disk)
        → nonempty (key_of w.codec key_field (some payload)) ≡ true
        → FitsIf w key_field d.index (content_of d.source)
        → Served now payload d (append_jsonl_once w now key_field payload d)
    unfolding append_jsonl_once
    append_jsonl_once-Served d f fits = rw f (once_read-Served d d.index f refl fits)
