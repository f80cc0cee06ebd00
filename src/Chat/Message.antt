-- ===== src/Chat/Message.antt =====
-- internal/app/chat/message.go, system_user.go, and internal/app/user/user.go: users, payloads and
-- messages.
use hzchat_server.Common.{ℕ, List, []}
use hzchat_server.Text.{Bytes, bytes}
use hzchat_server.Chat.Attachment.{Attachment}

-- user.User
pub record User : Type 0 where
  pub id : Bytes
  pub nickname : Bytes
  pub avatar : Bytes
  pub user_type : Bytes

abbrev pub system_user : User
system_user = record {
  id = bytes "system";
  nickname = bytes "system";
  avatar = [];
  user_type = bytes "system";
}

-- MessageType
abbrev pub type_init_data : Bytes
type_init_data = bytes "INIT_DATA"

abbrev pub type_user_joined : Bytes
type_user_joined = bytes "USER_JOINED"

abbrev pub type_user_left : Bytes
type_user_left = bytes "USER_LEFT"

abbrev pub type_confirm : Bytes
type_confirm = bytes "MSG_CONFIRM"

abbrev pub type_text : Bytes
type_text = bytes "TEXT"

abbrev pub type_error : Bytes
type_error = bytes "ERROR"

abbrev pub type_token_update : Bytes
type_token_update = bytes "TOKEN_UPDATE"

abbrev pub type_attachments : Bytes
type_attachments = bytes "ATTACHMENTS"

pub record InitDataPayload : Type 0 where
  pub current_user : User
  pub online_users : List User
  pub max_users : ℕ

pub record AttachmentsPayload : Type 0 where
  pub description : Bytes
  pub attachments : List Attachment

-- The payload structs, each as what it holds; `confirm` is the struct of sendConfirmation, with the
-- client's temporary id, the message's id and its timestamp.
pub data Payload : Type 0 where
  init_data : InitDataPayload → Payload
  user_event : User → Payload
  text : Bytes → Payload
  error : ℕ → Bytes → Payload
  token_update : Bytes → Payload
  attachments : AttachmentsPayload → Payload
  confirm : Bytes → Bytes → ℕ → Payload

-- Message; the payload is raw JSON, the timestamp is in milliseconds.
pub record Message : Type 0 where
  pub id : Bytes
  pub type : Bytes
  pub room_code : Bytes
  pub sender : User
  pub payload : Bytes
  pub timestamp : ℕ
  pub temp_id : Bytes

-- The struct that processInboundMessage reads.
pub record Inbound : Type 0 where
  pub type : Bytes
  pub payload : Bytes
  pub temp_id : Bytes
