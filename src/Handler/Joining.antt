-- ===== src/Handler/Joining.antt =====
-- internal/handler/room_handler.go: HandleJoinRoom. The decoding of its input is an argument.
pub mod Laws
mod Tests
use hzchat_server.Common.{ℕ, Bool, true, false, ◌&&◌, List, [], ◌∷◌, Option, none, some, not}
use hzchat_server.Text.{Bytes, bytes, bytes_eq}
use hzchat_server.Errs.{
  err_unauthorized, err_invalid_params, err_room_not_found, err_room_is_full, err_unknown,
}
use hzchat_server.Randx.{is_valid_guest_id, is_valid_room_code}
use hzchat_server.Jwt
use hzchat_server.Jwt.{generate_token, room_access_expiration}
use hzchat_server.Http.{bind_json}
use hzchat_server.Users.{get_user_by_id}
use hzchat_server.Chat.Manager.{Manager, get_room}
use hzchat_server.Chat.Room.Handlers.{is_full}
use hzchat_server.Handler.Assets.{full_asset_url}
use hzchat_server.Handler.Accounts.{
  Services, Request, Action, ◌>>=◌, ◌>>◌, reply, refuse_if, or_refuse, from_bound, from_row, tick,
  or_empty, claims_of, select,
}
use hzchat_server.Handler.Accounts.Sessions.{is_some}

pub record JoinRoomInput : Type 0 where
  pub code : Bytes
  pub guest_id : Bytes
  pub nickname : Bytes

-- finalID, userType and nickName of a request without an identity.
unfoldable pub as_guest : JoinRoomInput → Action Jwt.Payload
as_guest input = do
  refuse_if (not (is_valid_guest_id input.guest_id)) err_invalid_params
  refuse_if (bytes_eq input.nickname []) err_invalid_params
  reply (claims_of input.guest_id (bytes "guest") input.nickname [])

module _ (sv : Services) where
  -- The same of a request with one, from the account.
  unfoldable pub as_registered : Jwt.Payload → Action Jwt.Payload
  as_registered identity = do
    user_uuid ← or_refuse err_invalid_params (sv.scan_uuid identity.id)
    queried ← select sv (get_user_by_id (some user_uuid))
    db_user ← from_row err_unauthorized queried
    reply (
        claims_of identity.id (bytes "registered") (or_empty db_user.nickname)
          (full_asset_url sv.s3_public_base_url (or_empty db_user.avatar_url)))

  abbrev pub participant : Option Jwt.Payload → JoinRoomInput → Action Jwt.Payload
  participant none input = as_guest input
  participant (some identity) input = as_registered identity

  -- HandleJoinRoom, with the header Authorization.
  unfoldable pub handle_join_room :
      (Bytes → Option (JoinRoomInput × Bytes)) → Manager → Bytes → Request → Action Bytes
  handle_join_room decode m authorization r = do
    refuse_if (not (bytes_eq authorization []) && not (is_some r.identity)) err_unauthorized
    input ← from_bound (bind_json decode r.content_type r.body)
    payload ← participant r.identity input
    refuse_if (not (is_valid_room_code input.code)) err_invalid_params
    room ← or_refuse err_room_not_found (get_room input.code m)
    refuse_if (is_full (m.store room) payload.id) err_room_is_full
    n ← tick
    or_refuse err_unknown
        (generate_token sv.sign (sv.now n) (record payload { code = input.code }) sv.jwt_secret
          room_access_expiration).1
