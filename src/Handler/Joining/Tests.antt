-- ===== src/Handler/Joining/Tests.antt =====
-- A guest joins the one room of a manager; signing is defined for the claims of this guest only.
use hzchat_server.Common.{
  ◌⊎◌, ℕ, ◌≡◌, refl, sym, ap, Bool, true, ◌&&◌, [], ◌∷◌, Option, none, some, ◌==◌, if◌then◌else◌,
  arith, Bool-cases, inl, inr,
}
use hzchat_server.Text.{Bytes, bytes, bytes_eq, bytes_eq_iff, has_prefix, runes, lookup}
use hzchat_server.Jwt
use hzchat_server.Jwt.{key_func, generate_token}
use hzchat_server.Http.{more, bind_json, bind_decoded, bound}
use hzchat_server.Limiter.{new_ip_rate_limiter}
use hzchat_server.Chat.Message.{User}
use hzchat_server.Chat.Manager.{Manager, new_manager, get_room}
use hzchat_server.Chat.Fixture.{empty_world}
use hzchat_server.Handler.WebSocket.{connected, handle_web_socket}
use hzchat_server.Handler.Accounts.{
  Services, Store, replied, ◌>>=◌, refuse_if, or_refuse, from_bound, tick,
}
use hzchat_server.Handler.Accounts.Fixture.{services, anonymous, empty}
use hzchat_server.Randx.{is_valid_guest_id, is_valid_room_code, base62_chars, contains_rune}
use hzchat_server.Chat.Room.Handlers.{is_full, new_room}
use hzchat_server.Handler.Joining.{JoinRoomInput, as_guest, handle_join_room}
use hzchat_server.Handler.Joining.Laws.{IsUserOf, join-connects}

abbrev claims : Jwt.Payload
claims = record {
  expires_at = 900;
  issued_at = 0;
  issuer = bytes "HZChat-Server";
  id = bytes "guest_abc123";
  code = bytes "abc123";
  user_type = bytes "guest";
  nickname = bytes "Bob";
  avatar = [];
}

abbrev is_claims : Jwt.Payload → Bool
is_claims c =
    (c.expires_at == 900 && c.issued_at == 0)
    && (bytes_eq c.issuer claims.issuer && (bytes_eq c.id claims.id && bytes_eq c.code claims.code))
    && (bytes_eq c.user_type claims.user_type
        && (bytes_eq c.nickname claims.nickname && bytes_eq c.avatar []))

abbrev signing : Services
signing = record services { sign = λ c secret. if is_claims c then some (bytes "t") else none }

abbrev parse_with_claims : (Bool → Option Bytes) → Bytes → Option (Jwt.Payload × Bool)
parse_with_claims key token = some (claims, true)

claims_only : (c : Jwt.Payload) → is_claims c ≡ true → c ≡ claims
claims_only c h = ground (
  arith,
  h,
  bytes_eq_iff c.issuer claims.issuer,
  bytes_eq_iff c.id claims.id,
  bytes_eq_iff c.code claims.code,
  bytes_eq_iff c.user_type claims.user_type,
  bytes_eq_iff c.nickname claims.nickname,
  bytes_eq_iff c.avatar [],
)

no_uuid : signing.scan_uuid [] ≡ none
unfolding bytes_eq
no_uuid = refl

reads :
    (c : Jwt.Payload) (token : Bytes)
    → signing.sign c signing.jwt_secret ≡ some token
    → parse_with_claims (key_func signing.jwt_secret) token ≡ some (c, true)
reads c token h = elim (Bool-cases (is_claims c)) [
  | inr other ↦ absurd (ground (arith, other, h))
  | inl same ↦ ap (λ d. some (d, true)) (sym (claims_only c same))
]

abbrev manager : Manager
manager = record (new_manager (bytes "secret") (λ p. empty_world.room)) {
  rooms = some ((bytes "abc123", 0) ∷ []);
  allocated = 1;
}

abbrev decode : Bytes → Option (JoinRoomInput × Bytes)
decode body =
    some (
      record { code = bytes "abc123"; guest_id = bytes "guest_abc123"; nickname = bytes "Bob" },
      [],
    )

abbrev joined : Store
joined = record empty { ticks = 1 }

joins : handle_join_room signing decode manager [] anonymous empty ≡ (replied (bytes "t"), joined)
unfolding handle_join_room ◌>>=◌ refuse_if bytes_eq from_bound bind_json bind_decoded more
    has_prefix as_guest is_valid_guest_id runes base62_chars is_valid_room_code or_refuse get_room
    lookup is_full new_manager new_room tick generate_token contains_rune
joins = refl

join-connects_example :
    (input : JoinRoomInput) × (bind_json decode anonymous.content_type anonymous.body ≡ bound input)
    × (room : ℕ) × (get_room input.code manager ≡ some room)
    × (user : User) × IsUserOf signing anonymous.identity input empty user
    × (expiry : ℕ) × (((i : Jwt.Payload) × (anonymous.identity ≡ some i) × (user.nickname ≡ []))
        ⊎ ((handle_web_socket
              (λ addr. none)
              (λ l. true)
              parse_with_claims
              true
              signing.jwt_secret
              (bytes "10.0.0.1")
              input.code
              (bytes "t")
              new_ip_rate_limiter
              manager).0
            ≡ connected room user expiry))
join-connects_example =
    join-connects signing decode manager (λ addr. none) (λ l. true) parse_with_claims no_uuid reads
      [] (bytes "10.0.0.1") new_ip_rate_limiter refl anonymous empty joined (bytes "t") joins
