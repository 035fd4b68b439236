-- ===== src/Bus/Torn.antt =====
-- The lines of a file whose writer stopped in the middle of a record (jsonl_bus.py).
use chatbot_win.Prelude.{
  ℕ, zero, suc, Bool, true, false, Option, none, some, List, [], ◌∷◌, ◌++◌, ◌≡◌, refl, sym, ap, ◌∙◌,
  subst, take, append_assoc, append_nil,
}
use chatbot_win.Bus.Text.{Place, fresh, after_cr, inside, unended, lines_from}
use chatbot_win.Bus.File.{linesep, last_byte, line_end}
use chatbot_win.Bus.Lines.{
  place_after, ended, Plain, Line, break_after, line_end-fresh, lines_from-append, lines_from-ended,
}

-- What arrived of the record: nothing, or its first `suc k` bytes.
abbrev pub piece : List ℕ → Option ℕ → List (List ℕ)
piece line none = []
piece line (some k) = take (suc k) line ∷ []

torn_linesep :
    (windows : Bool) (line : List ℕ) (n : ℕ)
    → lines_from (inside line) (take n (linesep windows)) ≡ line ∷ []
unfolding lines_from linesep
torn_linesep windows line zero = refl
torn_linesep false line (suc zero) = refl
torn_linesep false line (suc (suc n)) = refl
torn_linesep true line (suc zero) = refl
torn_linesep true line (suc (suc zero)) = refl
torn_linesep true line (suc (suc (suc n))) = refl

torn_inside :
    (windows : Bool) (before line : List ℕ) (n : ℕ)
    → Plain line
    → lines_from (inside before) (take n (line ++ linesep windows)) ≡ (before ++ take n line) ∷ []
unfolding lines_from
torn_inside windows before [] zero p = ap (λ l. l ∷ []) (sym (append_nil before))
torn_inside windows before [] (suc n) p =
    torn_linesep windows before (suc n) ∙ ap (λ l. l ∷ []) (sym (append_nil before))
torn_inside windows before (b ∷ line) zero p = ap (λ l. l ∷ []) (sym (append_nil before))
torn_inside windows before (b ∷ line) (suc n) ((h, k), p) =
    rw (h, k)
      (torn_inside windows (before ++ (b ∷ [])) line n p
        ∙ ap (λ l. l ∷ []) (append_assoc before (b ∷ []) (take n line)))

-- The lines are those before and what arrived of the record.
abbrev pub Adds : List ℕ → List (List ℕ) → List (List ℕ) → Type 0
Adds line before after = (o : Option ℕ) × (after ≡ before ++ piece line o)

torn_record :
    (windows : Bool) (b : ℕ) (line : List ℕ) (n : ℕ)
    → Plain (b ∷ line)
    → Adds (b ∷ line) [] (lines_from fresh (take n ((b ∷ line) ++ linesep windows)))
unfolding lines_from
torn_record windows b line zero p = (none, refl)
torn_record windows b line (suc n) ((h, k), p) =
    (some n, rw (h, k) (torn_inside windows (b ∷ []) line n p))

torn_break :
    (windows : Bool) (place : Place) (b : ℕ) (line : List ℕ) (n : ℕ)
    → Plain (b ∷ line)
    → Adds
        (b ∷ line)
        (unended place)
        (lines_from place (take n (break_after windows place ++ ((b ∷ line) ++ linesep windows))))
unfolding lines_from linesep
torn_break windows fresh b line n p = torn_record windows b line n p
torn_break windows after_cr b line zero p = (none, refl)
torn_break windows after_cr b line (suc n) p = torn_record windows b line n p
torn_break windows (inside l) b line zero p = (none, refl)
torn_break false (inside l) b line (suc n) p =
    let r = torn_record false b line n p in (r.0, ap (λ x. l ∷ x) r.1)
torn_break true (inside l) b line (suc zero) p = (none, refl)
torn_break true (inside l) b line (suc (suc n)) p =
    let r = torn_record true b line n p in (r.0, ap (λ x. l ∷ x) r.1)

torn_place :
    (windows : Bool) (place : Place) (line : List ℕ) (n : ℕ)
    → Line line
    → Adds line
        (unended place)
        (lines_from place (take n (break_after windows place ++ (line ++ linesep windows))))
torn_place windows place line n (b, rest, e, p) =
    rw e (torn_break windows place b rest n (subst Plain e p))

pub torn_bytes :
    (windows : Bool) (content line : List ℕ) (n : ℕ)
    → Line line
    → Adds line (lines_from fresh content) (
        lines_from fresh (
          content
          ++ take n (line_end windows (last_byte none content) ++ (line ++ linesep windows))))
torn_bytes windows content line n l =
    let r = torn_place windows (place_after fresh content) line n l in
    (
      r.0,
      rw (line_end-fresh windows content) (
          lines_from-append fresh content _
          ∙ ap (λ x. ended fresh content ++ x) r.1
          ∙ sym (append_assoc (ended fresh content) _ _)
          ∙ ap (λ x. x ++ piece line r.0) (sym (lines_from-ended fresh content))),
    )
