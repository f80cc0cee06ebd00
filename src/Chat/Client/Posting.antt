-- ===== src/Chat/Client/Posting.antt =====
-- What handleText and handleAttachments leave of the state, on every branch.
mod Leaving
pub use Leaving.*
use hzchat_server.Common.{
  ℕ, ◌≤◌, ◌<◌, ◌≡◌, ap, ◌∙◌, ◌⊎◌, true, false, not, ◌&&◌, [], ◌∷◌, ◌++◌, some, arith, if◌then◌else◌,
  length, All, map,
}
use hzchat_server.Text.{Bytes, bytes_eq}
use hzchat_server.Errs.{
  CustomError, new_error, err_message_content_too_long, err_attachment_count_invalid,
}
use hzchat_server.Chat.Attachment.{Attachment}
use hzchat_server.Chat.Channel.{send}
use hzchat_server.Chat.Message.{Message, AttachmentsPayload, text, attachments, type_text, Payload}
use hzchat_server.Chat.World.{World, Runtime, Outcome, done}
use hzchat_server.Chat.Keeps.{
  Marshals, IsOpen, has_space, Spares, deposit, deposit-store, deposit-room, deposit-Spares,
}
use hzchat_server.Chat.Client.Sending.{send_error, custom, GoError}
use hzchat_server.Chat.Client.Effects.{
  built, later, ack, new_message_lem, error_bytes, send_error_lem, confirmed,
  send_confirmation_open, confirmed-room, confirmed-Spares, confirmed-queue,
}
use hzchat_server.Chat.Client.Inbound.{
  refused, check_attachments, key_prefix, enqueue_broadcast, confirm_and_broadcast, handle_text,
}
use hzchat_server.Chat.Client.Receiving.{IsAllowed, without_meta}

module _ (rt : Runtime) (js : Marshals rt) where
  text_short :
      (p : ℕ) (payload_bytes temp_id content : Bytes) (w : World)
      → rt.unmarshal_text payload_bytes ≡ some content
      → length content ≤ 5000
      → handle_text rt p payload_bytes temp_id w
        ≡ confirm_and_broadcast rt p temp_id
            (some (built rt js w type_text w.room.code (w.store p).user (text content)))
            (later rt js w)
  unfolding handle_text
  text_short p payload_bytes temp_id content w h short =
      ground
        (arith, h, new_message_lem rt js type_text w.room.code (w.store p).user (text content) w)

  text_long :
      (p : ℕ) (payload_bytes temp_id content : Bytes) (w : World)
      → rt.unmarshal_text payload_bytes ≡ some content
      → 5000 < length content
      → handle_text rt p payload_bytes temp_id w
        ≡ send_error rt p (custom (new_error err_message_content_too_long)) w
  unfolding handle_text
  text_long p payload_bytes temp_id content w h long = ground (arith, h)

  pub handle_text_lem :
      (p : ℕ) (payload_bytes temp_id content : Bytes) (w : World)
      → rt.unmarshal_text payload_bytes ≡ some content
      → CanPost w p
      → (5000 < length content
          → IsAnswered rt js w p
              (custom (new_error err_message_content_too_long))
              (handle_text rt p payload_bytes temp_id w))
        × (length content ≤ 5000
            → IsPosted rt js w p temp_id type_text
                (text content)
                (handle_text rt p payload_bytes temp_id w))
  handle_text_lem p payload_bytes temp_id content w h c = (
    λ long.
        rw (text_long p payload_bytes temp_id content w h long)
          (answer_lem rt js p (custom (new_error err_message_content_too_long)) w c.opening),
    λ short.
        rw (text_short p payload_bytes temp_id content w h short)
          (post_lem rt js p temp_id type_text (text content) w c),
  )

  -- When the attachments of a message may be posted.
  abbrev pub IsSendable : Bytes → AttachmentsPayload → Type 0
  IsSendable code sent =
      (1 ≤ length sent.attachments)
      × (length sent.attachments ≤ 3)
      × (length sent.description ≤ 5000)
      × All (IsAllowed rt.lower_table code) sent.attachments

  -- What is posted: the same attachments without their meta data.
  abbrev pub cleared_payload : AttachmentsPayload → Payload
  cleared_payload sent =
      attachments
        (record { description = sent.description; attachments = map without_meta sent.attachments })

  -- Why attachments are refused, with the error for it: their count, else the length of the
  -- description, else the first attachment that is refused.
  abbrev pub IsRefusal : Bytes → AttachmentsPayload → CustomError → Type 0
  IsRefusal code sent e =
      let wrong_count = (length sent.attachments ≡ 0) ⊎ (3 < length sent.attachments) in
      (wrong_count × (e ≡ new_error err_attachment_count_invalid))
      ⊎ ((¬ wrong_count)
          × (5000 < length sent.description)
          × (e ≡ new_error err_message_content_too_long))
      ⊎ ((¬ wrong_count)
          × (length sent.description ≤ 5000)
          × (check_attachments rt.lower_table (key_prefix code) sent.attachments ≡ refused e))
