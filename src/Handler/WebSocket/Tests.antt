-- ===== src/Handler/WebSocket/Tests.antt =====
-- A request with a good token for the one room of a manager.
use hzchat_server.Common.{◌*◌, ◌≡◌, ◌↔◌, Bool, true, [], ◌∷◌, Option, none, some}
use hzchat_server.Text.{Bytes, bytes}
use hzchat_server.Randx.{is_valid_room_code}
use hzchat_server.Jwt
use hzchat_server.Jwt.{second, parse_token}
use hzchat_server.Limiter.{new_ip_rate_limiter}
use hzchat_server.Chat.Manager.{Manager, new_manager}
use hzchat_server.Chat.Fixture.{empty_world, ann}
use hzchat_server.Handler.WebSocket.{connected, handle_web_socket}
use hzchat_server.Handler.WebSocket.Laws.{Entitles, Carries, handle_web_socket_iff}

abbrev claims : Jwt.Payload
claims = record {
  expires_at = 900;
  issued_at = 0;
  issuer = bytes "HZChat-Server";
  id = bytes "ann";
  code = bytes "abc123";
  user_type = bytes "registered";
  nickname = bytes "Ann";
  avatar = [];
}

abbrev manager : Manager
manager = record (new_manager (bytes "secret") (λ p. empty_world.room)) {
  rooms = some ((bytes "abc123", 0) ∷ []);
  allocated = 1;
}

abbrev parse_with_claims : (Bool → Option Bytes) → Bytes → Option (Jwt.Payload × Bool)
parse_with_claims key_func token = some (claims, true)

handle_web_socket_iff_example :
    ((handle_web_socket
        (λ addr. none)
        (λ l. true)
        parse_with_claims
        true
        (bytes "secret")
        (bytes "10.0.0.1")
        (bytes "abc123")
        (bytes "token")
        new_ip_rate_limiter
        manager).0
      ≡ connected 0 ann (900 * second))
    ↔ ((true ≡ true)
        × (is_valid_room_code (bytes "abc123") ≡ true)
        × ((payload : Jwt.Payload) × (parse_token parse_with_claims (bytes "token") (bytes "secret")
              ≡ some payload)
            × Entitles manager (bytes "abc123") payload 0
            × (true ≡ true)
            × Carries payload ann (900 * second)))
handle_web_socket_iff_example =
    handle_web_socket_iff (λ addr. none) (λ l. true) parse_with_claims true (bytes "secret")
      (bytes "10.0.0.1") (bytes "abc123") (bytes "token") new_ip_rate_limiter manager 0 ann
      (900 * second)
