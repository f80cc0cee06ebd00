-- ===== src/Handler/Files/Tests.antt =====
-- A storage that signs every key, and the identity of the one room of a manager.
use hzchat_server.Common.{◌≡◌, ◌↔◌, refl, [], ◌∷◌, ◌++◌, none, some}
use hzchat_server.Common.Int.{pos}
use hzchat_server.Errs.{err_file_storage_failed}
use hzchat_server.Text.{bytes, bytes_eq, has_prefix, runes, lookup, ext, ext_scan, to_lower}
use hzchat_server.Randx.{is_valid_room_code, base62_chars, contains_rune}
use hzchat_server.Http.{more, bind_json, bind_decoded}
use hzchat_server.Chat.Attachment.{
  validate_file_size, validate_file_type, allowed_mime_types, ext_to_mime,
}
use hzchat_server.Chat.Client.Inbound.{key_prefix, check_attachments, accepted}
use hzchat_server.Chat.Client.Receiving.{without_meta}
use hzchat_server.Chat.Manager.{Manager, new_manager, get_room}
use hzchat_server.Chat.Fixture.{empty_world}
use hzchat_server.Jwt
use hzchat_server.Handler.Accounts.{
  Request, Store, replied, ◌>>=◌, refuse_if, or_refuse, from_bound, tick,
}
use hzchat_server.Handler.Accounts.Fixture.{identity, request, empty}
use hzchat_server.Handler.Files.{
  Storage, room_identity, refuse_with, Presigned, PresignChatMessageInput, presigned_url_duration,
  handle_presign_chat_message_url, handle_presign_download_url,
}
use hzchat_server.Handler.Files.Laws.{
  MayDownload, IsAnswered, uploaded, handle_presign_download_url_iff, upload-accepted,
}

abbrev storage : Storage
storage = record {
  presign_upload = λ key type size duration. some (bytes "put:" ++ key);
  presign_download = λ key duration. some (bytes "get:" ++ key);
  decode_chat_message = λ body. some (
    record { file_name = bytes "cat.png"; mime_type = bytes "image/png"; file_size = pos 1000 },
    [],
  );
  decode_avatar = λ body. none;
  new_uuid = λ n. bytes "u";
  lower_table = λ c. c;
  format_int = λ n. n ∷ [];
}

abbrev manager : Manager
manager = record (new_manager (bytes "secret") (λ p. empty_world.room)) {
  rooms = some ((bytes "abc123", 0) ∷ []);
  allocated = 1;
}

abbrev member : Request
member = record request { identity = some (record identity { code = bytes "abc123" }) }

handle_presign_download_url_iff_example :
    (handle_presign_download_url storage manager member (bytes "abc123/u.png") empty
      ≡ (replied (bytes "get:abc123/u.png"), empty))
    ↔ (MayDownload storage manager member.identity (bytes "abc123/u.png") (bytes "get:abc123/u.png")
        × (empty ≡ empty))
handle_presign_download_url_iff_example =
    handle_presign_download_url_iff storage manager member (bytes "abc123/u.png")
      (bytes "get:abc123/u.png") empty empty

abbrev presigned : Presigned
presigned = record {
  presigned_url = bytes "put:abc123/u.png";
  file_key = bytes "abc123/u.png";
  file_name = some (bytes "cat.png");
}

abbrev uploading : Store
uploading = record empty { ticks = 1 }

uploads :
    handle_presign_chat_message_url storage manager member empty ≡ (replied presigned, uploading)
unfolding handle_presign_chat_message_url ◌>>=◌ room_identity or_refuse refuse_if is_valid_room_code
    runes base62_chars get_room lookup bytes_eq from_bound bind_json bind_decoded more has_prefix
    refuse_with validate_file_size validate_file_type allowed_mime_types ext_to_mime tick
    contains_rune ext ext_scan to_lower
uploads = refl

upload-accepted_example :
    (i : Jwt.Payload) × (input : PresignChatMessageInput) × IsAnswered storage manager member
      presigned i input
    × (check_attachments storage.lower_table
          (key_prefix i.code)
          (uploaded storage manager presigned input (pos 1000) none ∷ [])
        ≡ accepted (without_meta (uploaded storage manager presigned input (pos 1000) none) ∷ []))
    × (handle_presign_download_url storage manager member presigned.file_key uploading
        ≡ or_refuse err_file_storage_failed
            (storage.presign_download presigned.file_key presigned_url_duration)
            uploading)
upload-accepted_example =
    upload-accepted storage manager member presigned empty uploading uploading (pos 1000) none
      uploads
