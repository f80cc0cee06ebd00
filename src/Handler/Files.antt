-- ===== src/Handler/Files.antt =====
-- internal/handler/file_handler.go: the three handlers that sign URLs for the storage. Signing, the uuid,
-- and the decoding of inputs are arguments; a redirection is a reply with its URL.
pub mod Laws
mod Tests
use hzchat_server.Common.{
  ℕ, ◌*◌, Bool, true, false, List, [], ◌∷◌, ◌++◌, Option, none, some, not, ltb, if◌then◌else◌,
}
use hzchat_server.Common.Int.{ℤ, pos, negsuc}
use hzchat_server.Text.{Bytes, bytes, bytes_eq, has_prefix, ext, to_lower}
use hzchat_server.Errs.{
  CustomError, err_unauthorized, err_room_not_found, err_file_storage_failed,
  err_unsupported_media_type, err_file_size_too_large, err_invalid_params,
}
use hzchat_server.Randx.{is_valid_room_code}
use hzchat_server.Jwt
use hzchat_server.Jwt.{minute, unix}
use hzchat_server.Http.{bind_json}
use hzchat_server.Chat.Attachment.{validate_file_size, validate_file_type}
use hzchat_server.Chat.Client.Inbound.{key_prefix}
use hzchat_server.Chat.Manager.{Manager, get_room}
use hzchat_server.Handler.Accounts.{
  Services, Request, Answer, replied, refused, Action, ◌>>=◌, ◌>>◌, reply, refuse, refuse_if,
  or_refuse, from_bound, tick,
}
use hzchat_server.Handler.Accounts.Passwords.{registered_identity}

-- chat.PresignedURLDuration
abbrev pub presigned_url_duration : ℕ
presigned_url_duration = 5 * minute

pub record PresignChatMessageInput : Type 0 where
  pub file_name : Bytes
  pub mime_type : Bytes
  pub file_size : ℤ

pub record PresignAvatarInput : Type 0 where
  pub mime_type : Bytes
  pub file_size : ℤ

-- A response; the name of the file stands in that of a chat message only.
pub record Presigned : Type 0 where
  pub presigned_url : Bytes
  pub file_key : Bytes
  pub file_name : Option Bytes

-- The storage and what else the handlers call: PresignUpload and PresignDownload, the decoders, uuid.New,
-- the case table of unicode, and the decimal text of a number.
pub record Storage : Type 0 where
  pub presign_upload : Bytes → Bytes → ℤ → ℕ → Option Bytes
  pub presign_download : Bytes → ℕ → Option Bytes
  pub decode_chat_message : Bytes → Option (PresignChatMessageInput × Bytes)
  pub decode_avatar : Bytes → Option (PresignAvatarInput × Bytes)
  pub new_uuid : ℕ → Bytes
  pub lower_table : ℕ → ℕ
  pub format_int : ℕ → Bytes

-- An error, if there is one.
unfoldable pub refuse_with : Option CustomError → Action (Unit {0})
refuse_with none s = (replied tt, s)
refuse_with (some e) s = (refused e, s)

-- identity == nil || !randx.IsValidRoomCode(identity.Code)
unfoldable pub room_identity : Option Jwt.Payload → Action Jwt.Payload
room_identity o = do
  identity ← or_refuse err_unauthorized o
  refuse_if (not (is_valid_room_code identity.code)) err_unauthorized
  reply identity

-- input.FileSize > 1*1024*1024
abbrev pub is_large_avatar : ℤ → Bool
is_large_avatar (pos n) = ltb (1 * 1024 * 1024) n
is_large_avatar (negsuc n) = false

module _ (st : Storage) (m : Manager) where
  -- HandlePresignChatMessageURL
  unfoldable pub handle_presign_chat_message_url : Request → Action Presigned
  handle_presign_chat_message_url r = do
    identity ← room_identity r.identity
    room ← or_refuse err_room_not_found (get_room identity.code m)
    input ← from_bound (bind_json st.decode_chat_message r.content_type r.body)
    refuse_with (validate_file_size input.file_size)
    refuse_with (validate_file_type st.lower_table input.file_name input.mime_type)
    n ← tick
    let file_key =
        identity.code
        ++ (bytes "/" ++ (st.new_uuid n ++ to_lower st.lower_table (ext input.file_name)))
    url ←
        or_refuse err_file_storage_failed
          (st.presign_upload file_key input.mime_type input.file_size presigned_url_duration)
    reply (
        let p : Presigned = record {
          presigned_url = url;
          file_key = file_key;
          file_name = some input.file_name;
        } in
        p)

  -- HandlePresignDownloadURL, with the value of the query's k.
  unfoldable pub handle_presign_download_url : Request → Bytes → Action Bytes
  handle_presign_download_url r file_key = do
    identity ← room_identity r.identity
    refuse_if (bytes_eq file_key []) err_invalid_params
    room ← or_refuse err_room_not_found (get_room identity.code m)
    refuse_if (not (has_prefix file_key (key_prefix identity.code))) err_unauthorized
    or_refuse err_file_storage_failed (st.presign_download file_key presigned_url_duration)

-- HandlePresignAvatarURL
unfoldable pub handle_presign_avatar_url : Services → Storage → Request → Action Presigned
handle_presign_avatar_url sv st r = do
  identity ← registered_identity r.identity
  input ← from_bound (bind_json st.decode_avatar r.content_type r.body)
  refuse_if (not (bytes_eq input.mime_type (bytes "image/webp"))) err_unsupported_media_type
  refuse_if (is_large_avatar input.file_size) err_file_size_too_large
  n ← tick
  let file_key =
      bytes "avatars/"
      ++ (identity.id ++ (bytes "/" ++ (st.format_int (unix (sv.now n)) ++ bytes ".webp")))
  url ←
      or_refuse err_file_storage_failed
        (st.presign_upload file_key input.mime_type input.file_size (15 * minute))
  reply (
      let p : Presigned = record { presigned_url = url; file_key = file_key; file_name = none } in
      p)
