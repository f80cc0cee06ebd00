-- ===== src/Handler/WebSocket/Laws.antt =====
-- Who is connected to a room.
use hzchat_server.Common.{
  ℕ, ◌*◌, ◌<◌, ◌≡◌, ◌≢◌, refl, ap, ◌↔◌, Bool, true, false, [], Option, none, some, arith,
  Bool-cases, Option-cases, inl, inr,
}
use hzchat_server.Text.{Bytes, bytes_eq_iff}
use hzchat_server.Randx.{is_valid_room_code}
use hzchat_server.Jwt
use hzchat_server.Jwt.{second, parse_token}
use hzchat_server.Limiter.{IpRateLimiter, get_limiter, client_ip}
use hzchat_server.Chat.Message.{User}
use hzchat_server.Chat.Manager.{Manager, get_room}
use hzchat_server.Chat.Room.Handlers.{is_full}
use hzchat_server.Handler.WebSocket.{
  connected, current_user, connect, check_payload, handle_web_socket,
}

-- The claims entitle to the room p as this user: they name the room, do not lack an expiry, an id or a
-- nickname; and the room is there and not full for this user.
pub record Entitles (m : Manager) (room_code : Bytes) (payload : Jwt.Payload) (p : ℕ) : Type 0 where
  pub coded : payload.code ≡ room_code
  pub expiring : 0 < payload.expires_at
  pub identified : payload.id ≢ []
  pub named : payload.nickname ≢ []
  pub found : get_room room_code m ≡ some p
  pub vacant : is_full (m.store p) payload.id ≡ false

-- What is connected are the token's user and expiry.
abbrev pub Carries : Jwt.Payload → User → ℕ → Type 0
Carries payload user expiry = (user ≡ current_user payload) × (expiry ≡ payload.expires_at * second)

connect_iff :
    (upgrades : Bool) (m : Manager) (payload : Jwt.Payload) (o : Option ℕ) (p : ℕ) (user : User)
    (expiry : ℕ)
    → (connect upgrades m payload o ≡ connected p user expiry) ↔ (
        (o ≡ some p)
        × (is_full (m.store p) payload.id ≡ false)
        × (upgrades ≡ true)
        × Carries payload user expiry)
unfolding connect
connect_iff upgrades m payload none p user expiry = (λ h. cc, λ (e, _, _, _). cc)
connect_iff upgrades m payload (some q) p user expiry = (
  λ h. elim (Bool-cases (is_full (m.store q) payload.id)) [
    | inl full ↦ absurd (ground (arith, h, full))
    | inr left ↦ elim (Bool-cases upgrades) [
      | inl up ↦
          let e : connected q (current_user payload) (payload.expires_at * second)
              ≡ connected p user expiry =
            rw (left, up) at h in
          let same : q ≡ p = cc in (ap some same, rw (← same) left, up, (cc, cc))
      | inr down ↦ absurd (ground (arith, h, left, down))
    ]
  ],
  λ (e, left, up, (u, x)). let same : q ≡ p = cc in rw (same, left, up, u, x) refl,
)

check_payload-inv :
    (upgrades : Bool) (m : Manager) (room_code : Bytes) (payload : Jwt.Payload) (p : ℕ)
    (user : User) (expiry : ℕ)
    → check_payload upgrades m room_code (some payload) ≡ connected p user expiry
    → (payload.code ≡ room_code)
      × (0 < payload.expires_at)
      × (payload.id ≢ [])
      × (payload.nickname ≢ [])
      × (connect upgrades m payload (get_room room_code m) ≡ connected p user expiry)
unfolding check_payload
check_payload-inv upgrades m room_code payload p user expiry h = (
  ground (arith, bytes_eq_iff payload.code room_code),
  ground arith,
  λ e. ground (arith, bytes_eq_iff payload.id []),
  λ e. ground (arith, bytes_eq_iff payload.nickname []),
  ground arith,
)

check_payload_iff :
    (upgrades : Bool) (m : Manager) (room_code : Bytes) (payload : Jwt.Payload) (p : ℕ)
    (user : User) (expiry : ℕ)
    → (check_payload upgrades m room_code (some payload) ≡ connected p user expiry)
      ↔ (Entitles m room_code payload p × (upgrades ≡ true) × Carries payload user expiry)
unfolding check_payload
check_payload_iff upgrades m room_code payload p user expiry =
    let law = connect_iff upgrades m payload (get_room room_code m) p user expiry in
    (
      λ h.
          let (c, x, i, n, e) = check_payload-inv upgrades m room_code payload p user expiry h in
          let (f, v, up, same) = law.0 e in
          (
            record { coded = c; expiring = x; identified = i; named = n; found = f; vacant = v },
            up,
            same,
          ),
      λ (n, up, same).
          let e = law.1 (n.found, n.vacant, up, same) in
          ground (
            arith,
            e,
            n.coded,
            n.expiring,
            n.identified,
            n.named,
            bytes_eq_iff payload.code room_code,
            bytes_eq_iff payload.id [],
            bytes_eq_iff payload.nickname [],
          ),
    )

anonymous_refused :
    (upgrades : Bool) (m : Manager) (room_code : Bytes) (p : ℕ) (user : User) (expiry : ℕ)
    → check_payload upgrades m room_code none ≢ connected p user expiry
unfolding check_payload
anonymous_refused upgrades m room_code p user expiry h = cc

module _ (split_host_port : Bytes → Option Bytes) (allow : ℕ → Bool)
    (parse_with_claims : (Bool → Option Bytes) → Bytes → Option (Jwt.Payload × Bool)) where
  handle_web_socket-guards :
      (upgrades : Bool) (secret remote_addr room_code token_string : Bytes) (i : IpRateLimiter)
      (m : Manager) (p : ℕ) (user : User) (expiry : ℕ)
      → ((handle_web_socket split_host_port allow parse_with_claims upgrades secret remote_addr
            room_code token_string i m).0
          ≡ connected p user expiry)
        ↔ ((allow (get_limiter (client_ip split_host_port remote_addr) i).0 ≡ true)
            × (is_valid_room_code room_code ≡ true)
            × (check_payload upgrades m room_code
                  (parse_token parse_with_claims token_string secret)
                ≡ connected p user expiry))
  unfolding handle_web_socket
  handle_web_socket-guards upgrades secret remote_addr room_code token_string i m p user expiry =
      (λ h. (ground (arith, h), ground (arith, h), ground (arith, h)), λ (a, v, c). rw (a, v) c)

  -- HandleWebSocket makes a client exactly if the limiter of the request's address allows it, the room
  -- code has its form, the token parses, its claims entitle to the room, which is there and not full for
  -- this user, and the upgrade succeeds; and then for that room, with the token's user and expiry.
  pub handle_web_socket_iff :
      (upgrades : Bool) (secret remote_addr room_code token_string : Bytes) (i : IpRateLimiter)
      (m : Manager) (p : ℕ) (user : User) (expiry : ℕ)
      → ((handle_web_socket split_host_port allow parse_with_claims upgrades secret remote_addr
            room_code token_string i m).0
          ≡ connected p user expiry)
        ↔ ((allow (get_limiter (client_ip split_host_port remote_addr) i).0 ≡ true)
            × (is_valid_room_code room_code ≡ true)
            × ((payload : Jwt.Payload) × (parse_token parse_with_claims token_string secret
                  ≡ some payload)
                × Entitles m room_code payload p
                × (upgrades ≡ true)
                × Carries payload user expiry))
  handle_web_socket_iff upgrades secret remote_addr room_code token_string i m p user expiry =
      let law =
        handle_web_socket-guards upgrades secret remote_addr room_code token_string i m p user
          expiry in
      (
        λ h.
            let (a, v, c) = law.0 h in
            elim (Option-cases (parse_token parse_with_claims token_string secret)) [
              | inl e ↦ absurd (anonymous_refused upgrades m room_code p user expiry (rw e at c))
              | inr (payload, e) ↦
                  let (n, up, same) =
                    (check_payload_iff upgrades m room_code payload p user expiry).0 (rw e at c) in
                  (a, v, (payload, e, n, up, same))
            ],
        λ (a, v, (payload, e, n, up, same)). law.1 (
          a,
          v,
          rw e ((check_payload_iff upgrades m room_code payload p user expiry).1 (n, up, same)),
        ),
      )
