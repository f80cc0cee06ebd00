-- ===== src/Chat/Client/Inbound.antt =====
-- client.go: what a client sends. processInboundMessage, handleText, handleAttachments.
use hzchat_server.Common.{
  ℕ, ◌||◌, List, [], ◌∷◌, ◌++◌, Option, none, some, ltb, ◌==◌, if◌then◌else◌, length, not,
}
use hzchat_server.Text.{Bytes, bytes, bytes_eq, has_prefix}
use hzchat_server.Errs.{
  CustomError, new_error, err_message_content_too_long, err_attachment_count_invalid,
  err_attachment_key_invalid,
}
use hzchat_server.Chat.Attachment.{Attachment, validate_file_type}
use hzchat_server.Chat.Channel.{Sent, sent, full, panics, send}
use hzchat_server.Chat.Message.{
  Message, Inbound, AttachmentsPayload, text, attachments, type_text, type_attachments,
}
use hzchat_server.Chat.World.{
  World, Runtime, Outcome, done, panicked, blocked, M, ◌>>=◌, ◌>>◌, skip, get_client, get_room,
}
use hzchat_server.Chat.Client.Sending.{new_message, send_error, send_confirmation, custom}

abbrev pub max_content_bytes : ℕ
max_content_bytes = 5000

abbrev pub max_attachments_count : ℕ
max_attachments_count = 3

-- room.broadcast <- message
unfoldable pub broadcast_result : World → Sent Message → Outcome (Unit {0} × World)
broadcast_result w (sent ch) = done (tt, record w { room = record w.room { broadcast = ch } })
broadcast_result w full = blocked
broadcast_result w panics = panicked

unfoldable pub enqueue_broadcast : Message → M (Unit {0})
unfolding broadcast_result
enqueue_broadcast m w = broadcast_result w (send m w.room.broadcast)

-- The result of the loop over the attachments: they without their meta, or the first error.
pub data Checked : Type 0 where
  accepted : List Attachment → Checked
  refused : CustomError → Checked

unfoldable pub cons_accepted : Attachment → Checked → Checked
cons_accepted a (accepted rest) = accepted (a ∷ rest)
cons_accepted a (refused e) = refused e

-- The loop's body, with the result of its later rounds.
unfoldable pub check_one : (ℕ → ℕ) → Bytes → Attachment → Checked → Checked
unfolding cons_accepted
check_one table prefix a later =
    if not (has_prefix a.key prefix)
    then refused (new_error err_attachment_key_invalid)
    else elim (validate_file_type table a.name a.mime_type) [
      | some e ↦ refused e
      | none ↦ cons_accepted (record a { meta = none }) later
    ]

unfoldable pub check_attachments : (ℕ → ℕ) → Bytes → List Attachment → Checked
unfolding check_one
check_attachments table prefix [] = accepted []
check_attachments table prefix (a ∷ rest) =
    check_one table prefix a (check_attachments table prefix rest)

-- fmt.Sprintf("%s/", code)
abbrev pub key_prefix : Bytes → Bytes
key_prefix code = code ++ bytes "/"

module _ (rt : Runtime) where
  -- The common end of both handlers.
  unfoldable pub confirm_and_broadcast : ℕ → Bytes → Option Message → M (Unit {0})
  confirm_and_broadcast p temp_id none = skip
  confirm_and_broadcast p temp_id (some m) = do
    send_confirmation rt p temp_id m
    enqueue_broadcast m

  unfoldable pub handle_text_payload : ℕ → Bytes → Option Bytes → M (Unit {0})
  handle_text_payload p temp_id none = skip
  handle_text_payload p temp_id (some content) =
      if ltb max_content_bytes (length content)
      then send_error rt p (custom (new_error err_message_content_too_long))
      else do
        room ← get_room
        c ← get_client p
        msg ← new_message rt type_text room.code c.user (text content)
        confirm_and_broadcast p temp_id msg

  -- handleText
  unfoldable pub handle_text : ℕ → Bytes → Bytes → M (Unit {0})
  unfolding handle_text_payload
  handle_text p payload_bytes temp_id =
      handle_text_payload p temp_id (rt.unmarshal_text payload_bytes)

  unfoldable pub send_attachments : ℕ → Bytes → Bytes → Checked → M (Unit {0})
  send_attachments p temp_id description (refused e) = send_error rt p (custom e)
  send_attachments p temp_id description (accepted cleared) = do
    room ← get_room
    c ← get_client p
    msg ←
        new_message rt type_attachments room.code c.user
          (attachments (record { description = description; attachments = cleared }))
    confirm_and_broadcast p temp_id msg

  unfoldable pub handle_attachments_payload : ℕ → Bytes → Option AttachmentsPayload → M (Unit {0})
  handle_attachments_payload p temp_id none = skip
  handle_attachments_payload p temp_id (some sent_payload) =
      let count = length sent_payload.attachments in
      if count == 0 || ltb max_attachments_count count
      then send_error rt p (custom (new_error err_attachment_count_invalid))
      else if ltb max_content_bytes (length sent_payload.description)
      then send_error rt p (custom (new_error err_message_content_too_long))
      else do
        room ← get_room
        send_attachments p temp_id sent_payload.description
            (check_attachments rt.lower_table (key_prefix room.code) sent_payload.attachments)

  -- handleAttachments
  unfoldable pub handle_attachments : ℕ → Bytes → Bytes → M (Unit {0})
  unfolding handle_attachments_payload
  handle_attachments p payload_bytes temp_id =
      handle_attachments_payload p temp_id (rt.unmarshal_attachments payload_bytes)

  unfoldable pub handle_inbound : ℕ → Option Inbound → M (Unit {0})
  handle_inbound p none = skip
  handle_inbound p (some m) =
      if bytes_eq m.type type_text
      then handle_text p m.payload m.temp_id
      else if bytes_eq m.type type_attachments
      then handle_attachments p m.payload m.temp_id
      else skip

  -- processInboundMessage
  unfoldable pub process_inbound_message : ℕ → Bytes → M (Unit {0})
  unfolding handle_inbound
  process_inbound_message p message_bytes = handle_inbound p (rt.unmarshal_inbound message_bytes)
