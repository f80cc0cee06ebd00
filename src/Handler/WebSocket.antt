-- ===== src/Handler/WebSocket.antt =====
-- internal/handler/ws_handler.go: HandleWebSocket up to the connection. The address parser, the
-- decision of rate.Limiter, the JWT library and the upgrade are parameters.
pub mod Laws
mod Tests
use hzchat_server.Common.{
  ℕ, ◌*◌, Bool, true, false, ◌||◌, List, [], Option, none, some, ltb, if◌then◌else◌, not,
}
use hzchat_server.Text.{Bytes, bytes_eq}
use hzchat_server.Errs.{
  CustomError, new_error, err_rate_limit_exceeded, err_invalid_params, err_unauthorized,
  err_room_not_found, err_room_is_full,
}
use hzchat_server.Randx.{is_valid_room_code}
use hzchat_server.Jwt
use hzchat_server.Jwt.{second, parse_token}
use hzchat_server.Limiter.{IpRateLimiter, get_limiter, client_ip}
use hzchat_server.Chat.Message.{User}
use hzchat_server.Chat.Manager.{Manager, get_room}
use hzchat_server.Chat.Room.Handlers.{is_full}

-- A refusal, a failed upgrade, or the client that is made: its room, its user and its token's expiry.
pub data Answer : Type 0 where
  refused : CustomError → Answer
  not_upgraded : Answer
  connected : ℕ → User → ℕ → Answer

abbrev pub current_user : Jwt.Payload → User
current_user payload = record {
  id = payload.id;
  nickname = payload.nickname;
  avatar = payload.avatar;
  user_type = payload.user_type;
}

-- From GetRoom on.
unfoldable pub connect : Bool → Manager → Jwt.Payload → Option ℕ → Answer
connect upgrades m payload none = refused (new_error err_room_not_found)
connect upgrades m payload (some p) =
    if is_full (m.store p) payload.id
    then refused (new_error err_room_is_full)
    else if upgrades
    then connected p (current_user payload) (payload.expires_at * second)
    else not_upgraded

-- The checks of the token's claims; times in claims are not negative here.
unfoldable pub check_payload : Bool → Manager → Bytes → Option Jwt.Payload → Answer
check_payload upgrades m room_code none = refused (new_error err_unauthorized)
check_payload upgrades m room_code (some payload) =
    if not (bytes_eq payload.code room_code)
    then refused (new_error err_unauthorized)
    else if not (ltb 0 payload.expires_at)
    then refused (new_error err_invalid_params)
    else if bytes_eq payload.id [] || bytes_eq payload.nickname []
    then refused (new_error err_invalid_params)
    else connect upgrades m payload (get_room room_code m)

-- HandleWebSocket, with what becomes of the limiters.
unfoldable pub handle_web_socket :
    (Bytes → Option Bytes)
    → (ℕ → Bool)
    → ((Bool → Option Bytes) → Bytes → Option (Jwt.Payload × Bool))
    → Bool
    → (secret remote_addr room_code token_string : Bytes) → IpRateLimiter
    → Manager
    → Answer × IpRateLimiter
handle_web_socket split_host_port allow parse_with_claims upgrades secret remote_addr room_code
      token_string i m =
    let (limiter, i') = get_limiter (client_ip split_host_port remote_addr) i in
    (
      if not (allow limiter)
          then refused (new_error err_rate_limit_exceeded)
          else (if not (is_valid_room_code room_code)
              then refused (new_error err_invalid_params)
              else check_payload upgrades m room_code
                  (parse_token parse_with_claims token_string secret)),
      i',
    )
