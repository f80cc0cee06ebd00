-- ===== src/Handler/Joining/Laws.antt =====
-- HandleJoinRoom and then HandleWebSocket: what a token is good for.
use hzchat_server.Common.{
  ◌⊎◌, inl, inr, Bool-cases, ℕ, ◌+◌, ◌*◌, ◌<◌, ◌≡◌, ◌≢◌, refl, sym, ap, ◌∙◌, Bool, true, false, [],
  Option, none, some, arith, not-false,
}
use hzchat_server.Text.{Bytes, bytes, bytes_eq, bytes_eq_iff}
use hzchat_server.Randx.{is_valid_guest_id, is_valid_room_code}
use hzchat_server.Randx.Laws.{is_valid_guest_id_iff}
use hzchat_server.Jwt
use hzchat_server.Jwt.{second, unix, key_func, parse_token, generate_token, room_access_expiration}
use hzchat_server.Http.{bind_json, bound}
use hzchat_server.Limiter.{IpRateLimiter, get_limiter, client_ip}
use hzchat_server.Chat.Message.{User}
use hzchat_server.Chat.Manager.{Manager, get_room}
use hzchat_server.Chat.Room.Handlers.{is_full}
use hzchat_server.Handler.WebSocket.{connected, current_user, handle_web_socket}
use hzchat_server.Handler.WebSocket.Laws.{handle_web_socket_iff}
use hzchat_server.Users
use hzchat_server.Users.{find, is_active_id}
use hzchat_server.Handler.Assets.{full_asset_url}
use hzchat_server.Handler.Accounts.{Store, Services, Request, replied, or_empty}
use hzchat_server.Handler.Accounts.Changing.{get_user_by_id-inv}
use hzchat_server.Handler.Accounts.Replying.{
  Replies, Replies-bind, Replies-reply, Replies-or_refuse, behind-refuse_if, behind-or_refuse,
  behind-from_bound, behind-from_row, behind-tick, behind-query,
}
use hzchat_server.Handler.Joining.{
  JoinRoomInput, as_guest, as_registered, participant, handle_join_room,
}

guest_id-nonempty : (id : Bytes) → is_valid_guest_id id ≡ true → id ≢ []
guest_id-nonempty id valid e =
    let (raw, same, _, _) = (is_valid_guest_id_iff id).0 valid in cc (same, e)

nonempty : (s : Bytes) → bytes_eq s [] ≡ false → s ≢ []
nonempty s h e = ground (arith, h, e, bytes_eq_iff s [])

named_or_registered :
    (o : Option Jwt.Payload) (nickname : Bytes)
    → (o ≡ none → nickname ≢ [])
    → ((identity : Jwt.Payload) × (o ≡ some identity) × (nickname ≡ [])) ⊎ (nickname ≢ [])
named_or_registered none nickname name = inr (name refl)
named_or_registered (some i) nickname name = elim (Bool-cases (bytes_eq nickname [])) [
  | inl empty ↦ inl (i, refl, (bytes_eq_iff nickname []).0 empty)
  | inr full ↦ inr (nonempty nickname full)
]

module _ (sv : Services) where
  -- The user of a request: a guest is the one that the input names; a user with an identity has its id,
  -- with the nickname and the avatar of the active account that this id names.
  abbrev pub IsUserOf : Option Jwt.Payload → JoinRoomInput → Store → User → Type 0
  IsUserOf none input s user = user ≡ record {
    id = input.guest_id;
    nickname = input.nickname;
    avatar = [];
    user_type = bytes "guest";
  }
  IsUserOf (some identity) input s user =
      (id : Bytes) × (account : Users.User) × (sv.scan_uuid identity.id ≡ some id)
      × (find (is_active_id id) s.users ≡ some account)
      × (user ≡ record {
        id = identity.id;
        nickname = or_empty account.nickname;
        avatar = full_asset_url sv.s3_public_base_url (or_empty account.avatar_url);
        user_type = bytes "registered";
      })

  as_guest-inv :
      (input : JoinRoomInput) (s v : Store) (payload : Jwt.Payload)
      → Replies (as_guest input) s payload v
      → (payload.id ≢ []) × (payload.nickname ≢ []) × IsUserOf none input s (current_user payload)
  unfolding as_guest
  as_guest-inv input s v payload h =
      let (valid, h1) = behind-refuse_if _ _ h in
      let (named, h2) = behind-refuse_if _ _ h1 in
      let (same, _) = Replies-reply _ h2 in
      (
        λ e. guest_id-nonempty input.guest_id (not-false _ valid) (ap (λ p. p.id) (sym same) ∙ e),
        λ e. nonempty input.nickname named (ap (λ p. p.nickname) (sym same) ∙ e),
        ap current_user same,
      )

  as_registered-inv :
      (identity : Jwt.Payload) (input : JoinRoomInput) (s v : Store) (payload : Jwt.Payload)
      → sv.scan_uuid [] ≡ none
      → Replies (as_registered sv identity) s payload v
      → (payload.id ≢ []) × IsUserOf (some identity) input s (current_user payload)
  unfolding as_registered
  as_registered-inv identity input s v payload empty h =
      let (uuid, scanned, h1) = behind-or_refuse _ _ h in
      elim (behind-query sv _ _ h1) [
        | inr down ↦ let (_, there, _) = behind-from_row _ _ down in absurd (cc there)
        | inl up ↦
            let (db_user, there, h3) = behind-from_row _ _ up in
            let (id, named, found) = get_user_by_id-inv (some uuid) s.users db_user there in
            let (same, _) = Replies-reply _ h3 in
            (
              λ e. cc (scanned, empty, ap sv.scan_uuid (ap (λ p. p.id) (sym same) ∙ e)),
              (id, db_user, scanned ∙ named, found, ap current_user same),
            )
      ]

  participant-inv :
      (o : Option Jwt.Payload) (input : JoinRoomInput) (s v : Store) (payload : Jwt.Payload)
      → sv.scan_uuid [] ≡ none
      → Replies (participant sv o input) s payload v
      → (payload.id ≢ [])
        × (o ≡ none → payload.nickname ≢ [])
        × IsUserOf o input s (current_user payload)
  participant-inv none input s v payload empty h =
      let (id, name, user) = as_guest-inv input s v payload h in (id, λ _. name, user)
  participant-inv (some i) input s v payload empty h =
      let (id, user) = as_registered-inv i input s v payload empty h in
      (id, λ e. absurd (cc e), user)

  -- What a token is made of.
  abbrev IsIssued : Manager → Request → Store → Bytes → JoinRoomInput → Jwt.Payload → ℕ → ℕ → Type 0
  IsIssued m r s token input payload room now =
      (payload.id ≢ [])
      × (r.identity ≡ none → payload.nickname ≢ [])
      × IsUserOf r.identity input s (current_user payload)
      × (is_valid_room_code input.code ≡ true)
      × (get_room input.code m ≡ some room)
      × (is_full (m.store room) payload.id ≡ false)
      × ((generate_token sv.sign now (record payload { code = input.code }) sv.jwt_secret
            room_access_expiration).1
          ≡ some token)

  module _ (decode : Bytes → Option (JoinRoomInput × Bytes)) (m : Manager) where
    join-inv :
        (authorization : Bytes) (r : Request) (s s' : Store) (token : Bytes)
        → sv.scan_uuid [] ≡ none
        → Replies (handle_join_room sv decode m authorization r) s token s'
        → (input : JoinRoomInput) × (bind_json decode r.content_type r.body ≡ bound input)
          × (payload : Jwt.Payload) × (room now : ℕ) × IsIssued m r s token input payload room now
    unfolding handle_join_room
    join-inv authorization r s s' token empty h =
        let (_, h1) = behind-refuse_if _ _ h in
        let (input, read, h2) = behind-from_bound _ h1 in
        let (payload, v, who, h3) = Replies-bind h2 in
        let (id, name, user) = participant-inv r.identity input s v payload empty who in
        let (code, h4) = behind-refuse_if _ _ h3 in
        let (room, there, h5) = behind-or_refuse _ _ h4 in
        let (vacant, h6) = behind-refuse_if _ _ h5 in
        let h7 = behind-tick _ h6 in
        let (issued, _) = Replies-or_refuse _ _ h7 in
        (
          input,
          read,
          payload,
          room,
          sv.now v.ticks,
          (id, name, user, not-false _ code, there, vacant, issued),
        )

    -- The claims that stand in the token.
    abbrev signed_claims : ℕ → JoinRoomInput → Jwt.Payload → Jwt.Payload
    signed_claims now input payload =
        (generate_token sv.sign now (record payload { code = input.code }) sv.jwt_secret
          room_access_expiration).0

    expires : (now : ℕ) → 0 < unix (now + room_access_expiration)
    expires now = omega arith

    -- Who HandleJoinRoom answers with a token is connected to the room of the request by HandleWebSocket
    -- with this token, while the same rooms are there: where the limiter allows the address, the upgrade
    -- succeeds, ParseToken reads the claims of a signed token back, and no uuid has an empty text. The
    -- user that is connected is the guest that the input names, or has the id of the request's identity
    -- with the nickname and avatar of its active account. The one exception are users with an identity
    -- whose account has an empty nickname.
    pub join-connects :
        (split_host_port : Bytes → Option Bytes) (allow : ℕ → Bool)
        (parse_with_claims : (Bool → Option Bytes) → Bytes → Option (Jwt.Payload × Bool))
        → sv.scan_uuid [] ≡ none
        → ((claims : Jwt.Payload) (token : Bytes)
            → sv.sign claims sv.jwt_secret ≡ some token
            → parse_with_claims (key_func sv.jwt_secret) token ≡ some (claims, true))
        → (authorization remote_addr : Bytes) (i : IpRateLimiter)
        → allow (get_limiter (client_ip split_host_port remote_addr) i).0 ≡ true
        → (r : Request) (s s' : Store) (token : Bytes)
        → handle_join_room sv decode m authorization r s ≡ (replied token, s')
        → (input : JoinRoomInput) × (bind_json decode r.content_type r.body ≡ bound input)
          × (room : ℕ) × (get_room input.code m ≡ some room)
          × (user : User) × IsUserOf r.identity input s user
          × (expiry : ℕ) × (((identity : Jwt.Payload) × (r.identity ≡ some identity)
                × (user.nickname ≡ []))
              ⊎ ((handle_web_socket split_host_port allow parse_with_claims true sv.jwt_secret
                    remote_addr input.code token i m).0
                  ≡ connected room user expiry))
    unfolding generate_token parse_token
    join-connects split_host_port allow parse_with_claims empty reads authorization remote_addr i
          allowed r s s' token h =
        let (input, read, payload, room, now, (id, name, tied, code, there, vacant, issued)) =
          join-inv authorization r s s' token empty (record { runs = h }) in
        let claims = signed_claims now input payload in
        (
          input,
          read,
          room,
          there,
          current_user payload,
          tied,
          claims.expires_at * second,
          elim (named_or_registered r.identity payload.nickname name) [
            | inl nameless ↦ inl nameless
            | inr named ↦ inr (
                (handle_web_socket_iff split_host_port allow parse_with_claims true sv.jwt_secret
                    remote_addr input.code token i m room (current_user payload)
                    (claims.expires_at * second)).1
                  (
                    allowed,
                    code,
                    (
                      claims,
                      ground (arith, reads claims token issued),
                      record {
                        coded = refl;
                        expiring = expires now;
                        identified = id;
                        named = named;
                        found = there;
                        vacant = vacant;
                      },
                      refl,
                      (refl, refl),
                    ),
                  ))
          ],
        )
