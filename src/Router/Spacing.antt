-- ===== src/Router/Spacing.antt =====
-- How far apart the cooldown lets replies be (router/cooldown.py, processor/message_processor.py).
use chatbot_win.Prelude.{
  ℕ, String, Bool, ap, true, false, Option, none, some, List, [], ◌∷◌, ◌+◌, ◌*◌, ◌≤◌, ◌≡◌, refl,
  sym, subst, ◌∙◌, arith, inl, inr, Bool-cases, ltb, nat_eq, if◌then◌else◌, ◌==◌, eq_iff,
}
use chatbot_win.Router.Latest.{last_of, read_last_seen_lem, last-mark, last-read, read-seconds}
use chatbot_win.Router.Turns.{
  Busy, Event, begins, ends, begin, end, turn, marked_at, with_mark, marks, idle,
}
use chatbot_win.Router.Cooldown.{Cooldown, second, read_last_seen, verdict, check, mark}

-- A time that comes at least `gap` after the one before it, if there is one.
abbrev pub Ahead : ℕ → Option ℕ → ℕ → Type 0
Ahead gap none t = Unit
Ahead gap (some p) t = p + gap ≤ t

-- Each time is at least `gap` after the one before it, the first after `from`.
abbrev pub SpacedFrom : ℕ → Option ℕ → List ℕ → Type 0
SpacedFrom gap from [] = Unit
SpacedFrom gap from (t ∷ ts) = Ahead gap from t × SpacedFrom gap (some t) ts

module _ (c d : String) (t : ℕ) (s : Cooldown) (on : nat_eq s.seconds 0 ≡ false) where
  check-read : check d t s ≡ (verdict s.seconds t (read_last_seen d s).0, (read_last_seen d s).1)
  unfolding check
  check-read = rw on refl

  check-seconds : (check d t s).1.seconds ≡ s.seconds
  check-seconds = rw check-read (read-seconds d s)

  check-last : last_of c (check d t s).1 ≡ last_of c s
  check-last = rw check-read (last-read c d s)

  check-apart :
      (p : Option ℕ) → last_of d s ≡ p → (check d t s).0.0 ≡ true → Ahead (s.seconds * second) p t
  check-apart none h g = tt
  check-apart (some p) h g =
      let e : (read_last_seen d s).0 ≡ some p = read_last_seen_lem d s ∙ h in
      elim (Bool-cases (ltb t (p + s.seconds * second))) [
        | inl b ↦ absurd (cc (rw (check-read, e, b) at g))
        | inr b ↦ ground arith
      ]

-- What holds between two events, where `p` is the time last marked for the conversation `c`.
record Paced (c : String) (n : ℕ) (p : Option ℕ) (b : Busy) : Type 0 where
  pub seconds : b.cooldown.seconds ≡ n
  pub last : last_of c b.cooldown ≡ p
  pub ahead : (t : ℕ) → b.answering c ≡ some t → Ahead (n * second) p t

abbrev PacedAfter : String → ℕ → Option ℕ → Option ℕ → Busy → Type 0
PacedAfter c n p none b = Paced c n p b
PacedAfter c n p (some t) b = Ahead (n * second) p t × Paced c n (some t) b

module _ (c : String) (n : ℕ) (on : nat_eq n 0 ≡ false) where
  begin-Paced :
      (d : String) (t : ℕ) (p : Option ℕ) (b : Busy) (at : Option ℕ)
      → b.answering d ≡ at
      → Paced c n p b
      → Paced c n p (begin d t b at)
  unfolding begin
  begin-Paced d t p b (some other) e h = h
  begin-Paced d t p b none e h =
      let on_here : nat_eq b.cooldown.seconds 0 ≡ false = rw h.seconds on in
      record {
        seconds = check-seconds c d t b.cooldown on_here ∙ h.seconds;
        last = check-last c d t b.cooldown on_here ∙ h.last;
        ahead = λ u. ahead_of u on_here;
      }
    where
      ahead_of :
          (u : ℕ)
          → nat_eq b.cooldown.seconds 0 ≡ false
          → (if c == d
              then (if (check d t b.cooldown).0.0 then some t else none)
              else b.answering c)
            ≡ some u
          → Ahead (n * second) p u
      ahead_of u on_here a = elim (Bool-cases (c == d)) [
        | inr f ↦ h.ahead u (rw f at a)
        | inl f ↦ elim (Bool-cases (check d t b.cooldown).0.0) [
          | inr g ↦ absurd (cc (rw (f, g) at a))
          | inl g ↦
              let now : t ≡ u = cc (rw (f, g) at a) in
              let known_here : last_of d b.cooldown ≡ p = rw (sym ((eq_iff c d).0 f)) h.last in
              subst (Ahead (n * second) p) now (
                subst (λ z. Ahead (z * second) p t) h.seconds
                  (check-apart c d t b.cooldown on_here p known_here g))
        ]
      ]

  -- Once the answer has ended, the conversation answers nothing.
  closed :
      (d : String) (p : Option ℕ) (b : Busy) (u : ℕ)
      → ((t : ℕ) → b.answering c ≡ some t → Ahead (n * second) p t)
      → (if c == d then none else b.answering c) ≡ some u
      → Ahead (n * second) p u
  closed d p b u ahead a = elim (Bool-cases (c == d)) [
    | inl f ↦ absurd (cc (rw f at a))
    | inr f ↦ ahead u (rw f at a)
  ]

  same_closed :
      (d : String) (p : Option ℕ) (b : Busy) (u : ℕ)
      → c ≡ d
      → (if c == d then none else b.answering c) ≡ some u
      → Ahead (n * second) p u
  same_closed d p b u e a = absurd (cc (rw ((eq_iff c d).1 e) at a))

  end-PacedAfter :
      (d : String) (replied : Bool) (p : Option ℕ) (b : Busy) (at : Option ℕ)
      → b.answering d ≡ at
      → Paced c n p b
      → PacedAfter c n p
          (if replied then if d == c then at else none else none)
          (end d replied b at)
  unfolding end mark
  end-PacedAfter d replied p b none e h = ground (arith, h)
  end-PacedAfter d false p b (some t) e h = record {
    seconds = h.seconds;
    last = h.last;
    ahead = λ u. closed d p b u h.ahead;
  }
  end-PacedAfter d true p b (some t) e h = elim (Bool-cases (d == c)) [
    | inr f ↦ rw f (record {
      seconds = h.seconds;
      last = last-mark c d t b.cooldown ∙ rw f h.last;
      ahead = λ u. closed d p b u h.ahead;
    })
    | inl f ↦
        let same : d ≡ c = (eq_iff d c).0 f in
        rw f (
          h.ahead t (ap b.answering (sym same) ∙ e),
          record {
            seconds = h.seconds;
            last = last-mark c d t b.cooldown ∙ rw f refl;
            ahead = λ u. same_closed d (some t) b u (sym same);
          },
        )
  ]

  turn-PacedAfter :
      (e : Event) (p : Option ℕ) (b : Busy)
      → Paced c n p b
      → PacedAfter c n p (marked_at c e b) (turn e b)
  unfolding turn marked_at
  turn-PacedAfter (begins d t) p b h = begin-Paced d t p b (b.answering d) refl h
  turn-PacedAfter (ends d replied) p b h = end-PacedAfter d replied p b (b.answering d) refl h

  with_mark-SpacedFrom :
      (p at : Option ℕ) (b : Busy) (ts : List ℕ)
      → PacedAfter c n p at b
      → ((q : Option ℕ) → Paced c n q b → SpacedFrom (n * second) q ts)
      → SpacedFrom (n * second) p (with_mark at ts)
  with_mark-SpacedFrom p none b ts h rest = rest p h
  with_mark-SpacedFrom p (some t) b ts (a, h) rest = (a, rest (some t) h)

  marks-SpacedFrom :
      (es : List Event) (p : Option ℕ) (b : Busy)
      → Paced c n p b
      → SpacedFrom (n * second) p (marks c es b)
  unfolding marks
  marks-SpacedFrom [] p b h = tt
  marks-SpacedFrom (e ∷ es) p b h =
      with_mark-SpacedFrom p (marked_at c e b) (turn e b) (marks c es (turn e b))
        (turn-PacedAfter e p b h) (λ q. marks-SpacedFrom es q (turn e b))

-- Under a cooldown of some seconds, from when the processor has nothing to answer: any two times that it
-- marks one after the other for a conversation, as it answers group messages, are at least so many
-- seconds apart, and the first is so many after the time that the cooldown already has for it, if
-- any; whatever messages any conversations begin and end in between, in any order.
pub marks-SpacedFrom_last :
    (c : String) (es : List Event) (s : Cooldown)
    → nat_eq s.seconds 0 ≡ false
    → SpacedFrom (s.seconds * second) (read_last_seen c s).0 (marks c es (idle s))
marks-SpacedFrom_last c es s on =
    marks-SpacedFrom c s.seconds on es (read_last_seen c s).0 (idle s)
      (record { seconds = refl; last = sym (read_last_seen_lem c s); ahead = λ t h. absurd (cc h) })
