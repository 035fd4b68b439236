-- ===== src/SendExecutor/Files.antt =====
-- The files of a reply (reply_gate/send_executor.py, `_send_reply_files`).
use chatbot_win.Prelude.{
  String, false, List, [], ◌∷◌, ◌≡◌, refl, arith, Bool-cases, inl, inr, keep, strip,
}
use chatbot_win.Domain.{Attachment, ReplyCandidate, FileSendResult}
use chatbot_win.SendExecutor.Execute.{Host, SendFile, deliverable, send_one, send_each}

abbrev pub paths : List Attachment → List String
paths [] = []
paths (a ∷ attachments) = strip a.path ∷ paths attachments

abbrev pub result_paths : List FileSendResult → List String
result_paths [] = []
result_paths (f ∷ fs) = f.path ∷ result_paths fs

module _ {W : Type 0} (host : Host) (send : SendFile W) (reply : ReplyCandidate) where
  send_one-path : (a : Attachment) (w : W) → (send_one host send reply a w).0.path ≡ strip a.path
  unfolding send_one
  send_one-path a w = ground arith

  -- There is one result for each attachment, in order, whatever happened to the others.
  pub send_each-paths :
      (attachments : List Attachment) (w : W)
      → result_paths (send_each host send reply attachments w).0 ≡ paths attachments
  unfolding send_each
  send_each-paths [] w = refl
  send_each-paths (a ∷ attachments) w =
      rw (send_one-path, send_each-paths attachments (send_one host send reply a w).1) refl

  send_one-held :
      (a : Attachment) (w : W) → deliverable host a ≡ false → (send_one host send reply a w).1 ≡ w
  unfolding deliverable send_one
  send_one-held a w h = ground arith

  -- What the driver is told is the same as if only the attachments whose path is allowed and exists were there.
  pub send_each-deliverable :
      (attachments : List Attachment) (w : W)
      → (send_each host send reply attachments w).1
        ≡ (send_each host send reply (keep (deliverable host) attachments) w).1
  unfolding send_each
  send_each-deliverable [] w = refl
  send_each-deliverable (a ∷ attachments) w = elim (Bool-cases (deliverable host a)) [
    | inl e ↦ rw e (send_each-deliverable attachments (send_one host send reply a w).1)
    | inr e ↦ rw (e, send_one-held a w e) (send_each-deliverable attachments w)
  ]
