-- ===== src/Router/Turns.antt =====
-- The cooldown as the processing of group messages uses it (processor/message_processor.py): a message
-- that the bot means to answer is checked at its time of receipt (`_apply_group_cooldown`), and the
-- reply, once there is one, is marked with that time. Batches has one handler for each conversation, so
-- between the two the conversation checks no other message; others do, in any order.
use chatbot_win.Prelude.{ℕ, String, Bool, Option, none, some, List, [], ◌∷◌, ◌==◌, if◌then◌else◌}
use chatbot_win.Router.Cooldown.{Cooldown, check, mark}

-- The cooldown, and for each conversation the time of the message that is being answered.
pub record Busy : Type 0 where
  pub cooldown : Cooldown
  pub answering : String → Option ℕ

-- A group message is decided on, with `speak` and its time of receipt; or the answer of a conversation
-- ends, with a reply or without one.
pub data Event : Type 0 where
  begins : String → ℕ → Event
  ends : String → Bool → Event

abbrev set_answering : String → Option ℕ → (String → Option ℕ) → String → Option ℕ
set_answering d at answering k = if k == d then at else answering k

unfoldable pub begin : String → ℕ → Busy → Option ℕ → Busy
begin d t b (some other) = b
begin d t b none = record {
  cooldown = (check d t b.cooldown).1;
  answering = set_answering d (if (check d t b.cooldown).0.0 then some t else none) b.answering;
}

unfoldable pub end : String → Bool → Busy → Option ℕ → Busy
end d replied b none = b
end d replied b (some t) = record {
  cooldown = if replied then mark d t b.cooldown else b.cooldown;
  answering = set_answering d none b.answering;
}

unfoldable pub turn : Event → Busy → Busy
unfolding begin end
turn (begins d t) b = begin d t b (b.answering d)
turn (ends d replied) b = end d replied b (b.answering d)

-- The time that an event marks for the conversation `c`.
unfoldable pub marked_at : String → Event → Busy → Option ℕ
marked_at c (begins d t) b = none
marked_at c (ends d replied) b = if replied then if d == c then b.answering d else none else none

abbrev pub with_mark : Option ℕ → List ℕ → List ℕ
with_mark none ts = ts
with_mark (some t) ts = t ∷ ts

-- The times that a run of events marks for it.
unfoldable pub marks : String → List Event → Busy → List ℕ
unfolding turn marked_at
marks c [] b = []
marks c (e ∷ es) b = with_mark (marked_at c e b) (marks c es (turn e b))

-- The processor starts with nothing to answer.
abbrev pub idle : Cooldown → Busy
idle s = record { cooldown = s; answering = λ c. none }
