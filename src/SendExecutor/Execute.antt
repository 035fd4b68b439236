-- ===== src/SendExecutor/Execute.antt =====
-- `GuardedSendExecutor` (reply_gate/send_executor.py): the sends of a reply, over the state `W` of what
-- is behind the driver. `Host` holds the library's path tests and `str.lower`.
use chatbot_win.Prelude.{
  String, Bool, true, not, ◌&&◌, ◌||◌, Option, none, some, List, [], ◌∷◌, if◌then◌else◌, nonempty,
  strip, contains, or_else, join, ◌==◌, ◌⊎◌, inl, inr,
}
use chatbot_win.Domain.{failed, Attachment, ReplyCandidate, FileSendResult, SendResult}
use chatbot_win.SendExecutor.Combine.{combined_file_send_result, combined_text_and_file_send_result}
use chatbot_win.SendExecutor.Guards.{SendConfig, Driver, sendable_attachments, can_send}

pub record Host : Type 0 where
  pub exists : String → Bool
  pub path_name : String → String
  pub lower : String → String

-- `_attachment_path_not_allowed`
unfoldable pub attachment_path_not_allowed : Host → Attachment → Bool
attachment_path_not_allowed host a =
    host.lower (strip a.status) == "blocked"
    && contains "path outside allowed root" (host.lower (strip a.reason))

abbrev file_result : Host → Attachment → String → FileSendResult
file_result host a reason = record {
  path = strip a.path;
  name = or_else a.name (host.path_name (strip a.path));
  status = failed;
  reason = reason;
  message_id = "";
}

abbrev of_outcome : Host → Attachment → String ⊎ SendResult → FileSendResult
of_outcome host a (inl exception) =
    file_result host a (join "" ("send_file_exception:" ∷ exception ∷ []))
of_outcome host a (inr r) = record (file_result host a r.reason) {
  status = r.status;
  message_id = r.message_id;
}

abbrev plain_result : ReplyCandidate → SendResult → SendResult
plain_result reply t = record {
  message_id = or_else t.message_id reply.message_id;
  conversation_id = reply.conversation_id;
  status = t.status;
  reason = t.reason;
  sent_at = t.sent_at;
  details = none;
}

abbrev pub failure : ReplyCandidate → String → SendResult
failure reply reason = record {
  message_id = reply.message_id;
  conversation_id = reply.conversation_id;
  status = failed;
  reason = reason;
  sent_at = "";
  details = none;
}

abbrev pub conclude : ReplyCandidate → Option SendResult → List FileSendResult → SendResult
conclude reply none [] = failure reply "empty_reply"
conclude reply none (f ∷ fs) = combined_file_send_result reply (f ∷ fs)
conclude reply (some t) [] = plain_result reply t
conclude reply (some t) (f ∷ fs) = combined_text_and_file_send_result reply t (f ∷ fs)

abbrev pub SendFile : Type 0 → Type 0
SendFile W = String → String → String → W → (String ⊎ SendResult) × W

-- Whether the loop reaches `driver.send_file`.
unfoldable pub deliverable : Host → Attachment → Bool
deliverable host a =
    not (attachment_path_not_allowed host a)
    && nonempty (strip a.path)
    && host.exists (strip a.path)

module _ {W : Type 0} where
  -- One round of the loop of `_send_reply_files`.
  unfoldable pub send_one : Host → SendFile W → ReplyCandidate → Attachment → W → FileSendResult × W
  send_one host send reply a w =
      if attachment_path_not_allowed host a
      then (file_result host a "outgoing_attachment_path_not_allowed", w)
      else if not (nonempty (strip a.path)) || not (host.exists (strip a.path))
      then (file_result host a "file_not_found", w)
      else (
        of_outcome host a (send reply.conversation_id (strip a.path) "" w).0,
        (send reply.conversation_id (strip a.path) "" w).1,
      )

  unfoldable pub send_each :
      Host → SendFile W → ReplyCandidate → List Attachment → W → List FileSendResult × W
  send_each host send reply [] w = ([], w)
  send_each host send reply (a ∷ attachments) w =
      let first = send_one host send reply a w in
      let rest = send_each host send reply attachments first.1 in (first.0 ∷ rest.0, rest.1)

  abbrev send_with : Host → Option (SendFile W) → ReplyCandidate → W → List FileSendResult × W
  send_with host none reply w = ([], w)
  send_with host (some send) reply w =
      send_each host send reply (sendable_attachments reply.attachments) w

  -- `_send_reply_files` of a driver that is there
  unfoldable pub send_reply_files : Host → Driver W → ReplyCandidate → W → List FileSendResult × W
  send_reply_files host d reply w = send_with host d.send_file reply w

  -- The sends of `_execute`, once the guards have passed.
  unfoldable pub deliver : Host → Driver W → ReplyCandidate → W → SendResult × W
  deliver host d reply w =
      if nonempty (strip reply.text)
      then (let t = d.send_message reply.conversation_id reply.text w in
          let files = send_reply_files host d reply t.1 in
          (conclude reply (some t.0) files.0, files.1))
      else (let files = send_reply_files host d reply w in (conclude reply none files.0, files.1))

  abbrev deliver_by : Host → Option (Driver W) → ReplyCandidate → W → SendResult × W
  deliver_by host none reply w = (failure reply "send_driver_missing", w)
  deliver_by host (some d) reply w = deliver host d reply w

  -- `_execute` with `confirmed=True`, which `execute_confirmed` and `execute_auto` both call.
  unfoldable pub execute :
      Host → SendConfig → Option (Driver W) → ReplyCandidate → W → SendResult × W
  execute host config driver reply w =
      let decision = can_send config driver reply true in
      if decision.allowed
      then deliver_by host driver reply w
      else (failure reply decision.reason, w)
