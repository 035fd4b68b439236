-- ===== src/SendExecutor/Permitted.antt =====
-- What the guards of a send promise (reply_gate/send_executor.py).
use chatbot_win.Prelude.{
  true, false, Option, none, some, ◌≡◌, ◌≢◌, ◌≤◌, refl, ◌⊎◌, inl, inr, arith, Bool-cases, nonempty,
  strip, len, ◌==◌,
}
use chatbot_win.Domain.{ReplyCandidate}
use chatbot_win.SendExecutor.Guards.{
  SendConfig, Driver, sendable_attachments, has_attachments, can_send_files, can_send,
}
use chatbot_win.SendExecutor.Execute.{Host, execute}

-- The reply has a text, or files that the driver can send.
abbrev HasContent : {W : Type 0} → Driver W → ReplyCandidate → Type 0
HasContent d reply =
    (nonempty (strip reply.text) ≡ true)
    ⊎ ((has_attachments (sendable_attachments reply.attachments) ≡ true)
        × (can_send_files d ≡ true))

-- What a send needs.
pub record Permitted {W : Type 0} (config : SendConfig) (driver : Option (Driver W))
    (reply : ReplyCandidate) : Type 0 where
  pub enabled : config.send_enabled ≡ true
  pub configured : nonempty config.send_driver ≡ true
  pub implemented : config.send_driver == "not_implemented" ≡ false
  pub sender : Driver W
  pub present : driver ≡ some sender
  pub content : HasContent sender reply
  pub short : len reply.text ≤ config.send_max_chars

module _ {W : Type 0} where
  can_send-Permitted :
      (config : SendConfig) (driver : Option (Driver W)) (reply : ReplyCandidate)
      → (can_send config driver reply true).allowed ≡ true
      → Permitted config driver reply
  unfolding can_send
  can_send-Permitted config none reply h = ground arith
  can_send-Permitted config (some d) reply h = record {
    enabled = ground arith;
    configured = ground arith;
    implemented = ground arith;
    sender = d;
    present = refl;
    content = elim (Bool-cases (nonempty (strip reply.text))) [
      | inl e ↦ inl e
      | inr e ↦ inr (ground arith, ground arith)
    ];
    short = ground arith;
  }

  -- A call that changes anything behind the driver is permitted: sending is enabled, a driver is configured and present, the reply has a text or files the driver can send, and the text is within the limit.
  pub execute-Permitted :
      (host : Host) (config : SendConfig) (driver : Option (Driver W)) (reply : ReplyCandidate)
      (w : W)
      → (execute host config driver reply w).1 ≢ w
      → Permitted config driver reply
  unfolding execute
  execute-Permitted host config driver reply w h =
      elim (Bool-cases ((can_send config driver reply true).allowed)) [
        | inl e ↦ can_send-Permitted config driver reply e
        | inr e ↦ absurd (h (rw e refl))
      ]
