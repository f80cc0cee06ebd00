-- ===== src/Handler/Files/Laws.antt =====
-- Who gets a URL of the private storage, and that an uploaded file can be posted and downloaded.
use hzchat_server.Common.{
  ℕ, ◌≡◌, ◌≢◌, refl, sym, ap, ◌∙◌, ◌↔◌, true, false, [], ◌∷◌, ◌++◌, Option, none, some, arith,
  not-false, Bool-cases, inl, inr,
}
use mathlib.Core.List.{append_assoc}
use hzchat_server.Text.{Bytes, bytes, bytes_eq, bytes_eq_iff, has_prefix_iff, ext, to_lower}
use hzchat_server.Common.Int.{ℤ}
use hzchat_server.Errs.{CustomError, err_file_storage_failed}
use hzchat_server.Randx.{is_valid_room_code}
use hzchat_server.Jwt
use hzchat_server.Http.{bind_json, bound}
use hzchat_server.Chat.Attachment.{Attachment, validate_file_size, validate_file_type}
use hzchat_server.Chat.Client.Inbound.{key_prefix, check_attachments, accepted}
use hzchat_server.Chat.Client.Receiving.{without_meta, check_attachments_iff}
use hzchat_server.Chat.Manager.{Manager, get_room}
use hzchat_server.Handler.Accounts.{Store, Request, ◌>>=◌, or_refuse, refuse_if, replied}
use hzchat_server.Handler.Accounts.Replying.{
  Replies, Replies-reply, Replies-or_refuse, behind, behind-refuse_if, behind-or_refuse,
  behind-from_bound, behind-tick,
}
use hzchat_server.Handler.Files.{
  Storage, Presigned, PresignChatMessageInput, presigned_url_duration, refuse_with, room_identity,
  handle_presign_chat_message_url, handle_presign_download_url,
}

-- The identity of a member of a room.
abbrev pub IsRoomIdentity : Option Jwt.Payload → Jwt.Payload → Type 0
IsRoomIdentity o identity = (o ≡ some identity) × (is_valid_room_code identity.code ≡ true)

Replies-room_identity :
    (o : Option Jwt.Payload) (i : Jwt.Payload) (s v : Store)
    → Replies (room_identity o) s i v
    → IsRoomIdentity o i × (v ≡ s)
unfolding room_identity
Replies-room_identity o i s v h =
    let (j, known, h1) = behind-or_refuse _ o h in
    let (valid, h2) = behind-refuse_if _ _ h1 in
    let (same, kept) = Replies-reply j h2 in
    (
      (known ∙ ap some (sym same), ap (λ p. is_valid_room_code p.code) same ∙ not-false _ valid),
      kept,
    )

Replies-refuse_with :
    (o : Option CustomError) (a : Unit {0}) (s v : Store)
    → Replies (refuse_with o) s a v
    → (o ≡ none) × (v ≡ s)
unfolding refuse_with
Replies-refuse_with none a s v h = (refl, sym (ap (λ q. q.1) h.runs))
Replies-refuse_with (some e) a s v h = absurd (cc h.runs)

module _ (st : Storage) (m : Manager) where
  -- What a download asks for.
  abbrev pub MayDownload : Option Jwt.Payload → Bytes → Bytes → Type 0
  MayDownload o file_key url =
      (identity : Jwt.Payload) × IsRoomIdentity o identity
      × ((room : ℕ) × (get_room identity.code m ≡ some room))
      × ((rest : Bytes) × (file_key ≡ key_prefix identity.code ++ rest))
      × (st.presign_download file_key presigned_url_duration ≡ some url)

  download-inv :
      (r : Request) (file_key url : Bytes) (s s' : Store)
      → Replies (handle_presign_download_url st m r file_key) s url s'
      → MayDownload r.identity file_key url × (s' ≡ s)
  unfolding handle_presign_download_url
  download-inv r file_key url s s' h =
      let (identity, own, h1) =
        behind (IsRoomIdentity r.identity) (λ i v. Replies-room_identity r.identity i s v) h in
      let (_, h2) = behind-refuse_if _ _ h1 in
      let (room, there, h3) = behind-or_refuse _ _ h2 in
      let (inside, h4) = behind-refuse_if _ _ h3 in
      let (signed, kept) = Replies-or_refuse _ _ h4 in
      (
        (
          identity,
          own,
          (room, there),
          (has_prefix_iff file_key (key_prefix identity.code)).0 (not-false _ inside),
          signed,
        ),
        kept,
      )

  slashed : (code rest : Bytes) → key_prefix code ++ rest ≢ []
  slashed [] rest e = cc e
  slashed (c ∷ code) rest e = cc e

  nonempty :
      (file_key code : Bytes)
      → (rest : Bytes) × (file_key ≡ key_prefix code ++ rest)
      → bytes_eq file_key [] ≡ false
  nonempty file_key code (rest, e) = elim (Bool-cases (bytes_eq file_key [])) [
    | inl empty ↦ absurd (slashed code rest (sym e ∙ (bytes_eq_iff file_key []).0 empty))
    | inr full ↦ full
  ]

  download-allowed :
      (r : Request) (file_key url : Bytes) (s : Store)
      → MayDownload r.identity file_key url
      → handle_presign_download_url st m r file_key s ≡ (replied url, s)
  unfolding handle_presign_download_url room_identity or_refuse refuse_if ◌>>=◌
  download-allowed r file_key url s (identity, (known, valid), (room, there), inside, signed) =
      ground (
        arith,
        known,
        valid,
        nonempty file_key identity.code inside,
        there,
        (has_prefix_iff file_key (key_prefix identity.code)).1 inside,
        signed,
      )

  -- HandlePresignDownloadURL redirects to a URL exactly for the identity of a room that is there, for a key
  -- under the code of this room, and for the URL that the storage signs for this key; nothing is changed.
  pub handle_presign_download_url_iff :
      (r : Request) (file_key url : Bytes) (s s' : Store)
      → (handle_presign_download_url st m r file_key s ≡ (replied url, s'))
        ↔ (MayDownload r.identity file_key url × (s' ≡ s))
  handle_presign_download_url_iff r file_key url s s' = (
    λ h. download-inv r file_key url s s' (record { runs = h }),
    λ (may, kept). download-allowed r file_key url s may ∙ ap (λ t. (replied url, t)) (sym kept),
  )

  -- What HandlePresignChatMessageURL has met before it replies.
  abbrev pub IsAnswered : Request → Presigned → Jwt.Payload → PresignChatMessageInput → Type 0
  IsAnswered r p identity input =
      IsRoomIdentity r.identity identity
      × ((room : ℕ) × (get_room identity.code m ≡ some room))
      × (bind_json st.decode_chat_message r.content_type r.body ≡ bound input)
      × (validate_file_size input.file_size ≡ none)
      × (validate_file_type st.lower_table input.file_name input.mime_type ≡ none)
      × (st.presign_upload p.file_key input.mime_type input.file_size presigned_url_duration
          ≡ some p.presigned_url)
      × ((rest : Bytes) × (p.file_key ≡ key_prefix identity.code ++ rest))
      × (p.file_name ≡ some input.file_name)

  upload-inv :
      (r : Request) (p : Presigned) (s s' : Store)
      → Replies (handle_presign_chat_message_url st m r) s p s'
      → (identity : Jwt.Payload) × (input : PresignChatMessageInput) × IsAnswered r p identity input
  unfolding handle_presign_chat_message_url
  upload-inv r p s s' h =
      let (identity, own, h1) =
        behind (IsRoomIdentity r.identity) (λ i v. Replies-room_identity r.identity i s v) h in
      let (room, there, h2) = behind-or_refuse _ _ h1 in
      let (input, read, h3) = behind-from_bound _ h2 in
      let (_, size, h4) =
        behind (λ _. validate_file_size input.file_size ≡ none) (λ a v. Replies-refuse_with _ a s v)
          h3 in
      let (_, type, h5) =
        behind (λ _. validate_file_type st.lower_table input.file_name input.mime_type ≡ none)
          (λ a v. Replies-refuse_with _ a s v) h4 in
      let h6 = behind-tick _ h5 in
      let (url, signed, h7) = behind-or_refuse _ _ h6 in
      let (same, _) = Replies-reply _ h7 in
      let rest = st.new_uuid s.ticks ++ to_lower st.lower_table (ext input.file_name) in
      (
        identity,
        input,
        (
          own,
          (room, there),
          read,
          size,
          type,
          ap
                (λ q.
                  st.presign_upload q.file_key input.mime_type input.file_size
                    presigned_url_duration)
                same
              ∙ signed
              ∙ ap (λ q. some q.presigned_url) (sym same),
          (rest, ap (λ q. q.file_key) same ∙ sym (append_assoc identity.code (bytes "/") rest)),
          ap (λ q. q.file_name) same,
        ),
      )

  -- The download of a key of the room ends as its signing does.
  download-signed :
      (r : Request) (identity : Jwt.Payload) (file_key : Bytes) (s : Store)
      → IsRoomIdentity r.identity identity
      → (room : ℕ) × (get_room identity.code m ≡ some room)
      → (rest : Bytes) × (file_key ≡ key_prefix identity.code ++ rest)
      → handle_presign_download_url st m r file_key s
        ≡ or_refuse err_file_storage_failed (st.presign_download file_key presigned_url_duration) s
  unfolding handle_presign_download_url room_identity or_refuse refuse_if ◌>>=◌
  download-signed r identity file_key s (known, valid) (room, there) inside = ground (
    arith,
    known,
    valid,
    nonempty file_key identity.code inside,
    there,
    (has_prefix_iff file_key (key_prefix identity.code)).1 inside,
  )

  -- The attachment that a client posts for an upload.
  abbrev pub uploaded : Presigned → PresignChatMessageInput → ℤ → Option Bytes → Attachment
  uploaded p input size meta = record {
    key = p.file_key;
    name = input.file_name;
    mime_type = input.mime_type;
    size = size;
    meta = meta;
  }

  -- If HandlePresignChatMessageURL replies, then its key is signed for the type and the size of the input,
  -- which ValidateFileType and ValidateFileSize accept, and stands under the code of the room; an
  -- attachment with this key and the name and type of the input passes the checks of handleAttachments
  -- in the room; and HandlePresignDownloadURL of the key for the same identity ends as the storage's
  -- signing does, with its URL or with ErrFileStorageFailed.
  pub upload-accepted :
      (r : Request) (p : Presigned) (s s' t : Store) (size : ℤ) (meta : Option Bytes)
      → handle_presign_chat_message_url st m r s ≡ (replied p, s')
      → (identity : Jwt.Payload) × (input : PresignChatMessageInput) × IsAnswered r p identity input
        × (check_attachments st.lower_table
              (key_prefix identity.code)
              (uploaded p input size meta ∷ [])
            ≡ accepted (without_meta (uploaded p input size meta) ∷ []))
        × (handle_presign_download_url st m r p.file_key t
            ≡ or_refuse err_file_storage_failed
                (st.presign_download p.file_key presigned_url_duration)
                t)
  upload-accepted r p s s' t size meta h =
      let (identity, input, (own, there, read, fits, type, signed, (rest, inside), file)) =
        upload-inv r p s s' (record { runs = h }) in
      let a = uploaded p input size meta in
      (
        identity,
        input,
        (own, there, read, fits, type, signed, (rest, inside), file),
        (check_attachments_iff st.lower_table identity.code (a ∷ []) (without_meta a ∷ [])).1
            ((((rest, inside), type), tt), refl),
        download-signed r identity p.file_key t own there (rest, inside),
      )
