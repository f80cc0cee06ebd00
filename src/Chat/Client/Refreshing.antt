-- ===== src/Chat/Client/Refreshing.antt =====
-- When checkAndRefreshToken issues a new token, and when it remembers the new expiry.
use hzchat_server.Common.{
  ℕ, suc, ◌+◌, ◌*◌, ◌≤◌, ◌<◌, ◌≡◌, [], ◌∷◌, ◌++◌, none, some, arith, if◌then◌else◌, Bool-cases, inl,
  inr,
}
use hzchat_server.Text.{Bytes}
use hzchat_server.Jwt.{generate_token, minute, unix, token_issuer}
use hzchat_server.Jwt
use hzchat_server.Chat.Message.{system_user, token_update, type_token_update}
use hzchat_server.Chat.World.{World, Client, Runtime, done, update}
use hzchat_server.Chat.Client.Sending.{send_token_update_message}
use hzchat_server.Chat.Client.Pumps.{check_and_refresh_token}
use hzchat_server.Chat.Client.Effects.{new_message_lem, send_message_open, built, later}
use hzchat_server.Chat.Keeps.{Marshals, IsOpen, has_space, deposit, deposit-store}

-- The claims of the new token: the client's user and room, issued now and valid for 15 minutes.
abbrev pub fresh_claims : World → ℕ → ℕ → Jwt.Payload
fresh_claims w p now = record {
  expires_at = unix (now + 15 * minute);
  issued_at = unix now;
  issuer = token_issuer;
  id = (w.store p).user.id;
  code = w.room.code;
  user_type = (w.store p).user.user_type;
  nickname = (w.store p).user.nickname;
  avatar = (w.store p).user.avatar;
}

module _ (rt : Runtime) (js : Marshals rt) where
  send_token_update_open :
      (p : ℕ) (token : Bytes) (w : World)
      → IsOpen w p
      → send_token_update_message rt p token w
        ≡ done (
          has_space w p,
          deposit p
              (js.message_json
                (built rt js w type_token_update w.room.code system_user (token_update token)))
              (later rt js w),
        )
  unfolding send_token_update_message
  send_token_update_open p token w h =
      let x = token_update token in
      ground (
        arith,
        new_message_lem rt js type_token_update w.room.code system_user x w,
        send_message_open rt js p (built rt js w type_token_update w.room.code system_user x)
            (later rt js w) h,
      )

  -- checkAndRefreshToken while two minutes or more are left does nothing but read the clock.
  refresh_early :
      (p : ℕ) (w : World)
      → rt.now w.clock_reads + 2 * minute ≤ (w.store p).token_expiry
      → check_and_refresh_token rt p w ≡ done (tt, record w { clock_reads = suc w.clock_reads })
  unfolding check_and_refresh_token
  refresh_early p w h = ground arith

  -- The state in which the new token is sent.
  abbrev pub sending : World → World
  sending w = record w { clock_reads = suc (suc (suc w.clock_reads)) }

  refresh_late :
      (p : ℕ) (w : World) (token : Bytes)
      → IsOpen w p
      → (w.store p).token_expiry < rt.now w.clock_reads + 2 * minute
      → rt.sign (fresh_claims w p (rt.now (suc w.clock_reads))) w.room.jwt_secret ≡ some token
      → (w' : World) × (check_and_refresh_token rt p w ≡ done (tt, w'))
        × ((w'.store p).token_expiry ≡ (
            if has_space w p
            then rt.now (suc (suc w.clock_reads)) + 15 * minute
            else (w.store p).token_expiry))
        × ((w'.store p).send.queue ≡ (
            if has_space w p
            then (w.store p).send.queue
              ++ js.message_json (
                  built rt js
                    (sending w)
                    type_token_update
                    w.room.code
                    system_user
                    (token_update token))
                ∷ []
            else (w.store p).send.queue))
  unfolding check_and_refresh_token generate_token update
  refresh_late p w token h late signed =
      let b =
        js.message_json (
          built rt js (sending w) type_token_update w.room.code system_user (token_update token)) in
      let v = deposit p b (later rt js (sending w)) in
      let e = send_token_update_open p token (sending w) h in
      let stored = deposit-store p b (later rt js (sending w)) p in
      elim (Bool-cases (has_space w p)) [
        | inl space ↦
            let c : Client = record (v.store p) {
              token_expiry = rt.now (suc (suc w.clock_reads)) + 15 * minute;
            } in
            (
              record v { store = update v.store p c },
              ground (arith, late, signed, e, space),
              ground (arith, space),
              ground (arith, space, stored),
            )
        | inr full ↦ (
          v,
          ground (arith, late, signed, e, full),
          ground (arith, full, stored),
          ground (arith, full, stored),
        )
      ]

  refresh_failed :
      (p : ℕ) (w : World)
      → (w.store p).token_expiry < rt.now w.clock_reads + 2 * minute
      → rt.sign (fresh_claims w p (rt.now (suc w.clock_reads))) w.room.jwt_secret ≡ none
      → check_and_refresh_token rt p w
        ≡ done (tt, record w { clock_reads = suc (suc w.clock_reads) })
  unfolding check_and_refresh_token generate_token
  refresh_failed p w late unsigned = ground (arith, late, unsigned)

-- checkAndRefreshToken, for a client whose channel is open. While two minutes or more of the token are
-- left it only reads the clock. After that it signs the claims of this user and room, issued now and
-- valid for 15 minutes: where signing fails, nothing changes but the clock's readings; else the token
-- is queued and the new expiry remembered exactly if the client's queue has space.
pub check_and_refresh_token_lem :
    (rt : Runtime) (js : Marshals rt) (p : ℕ) (w : World)
    → IsOpen w p
    → (rt.now w.clock_reads + 2 * minute ≤ (w.store p).token_expiry
        → check_and_refresh_token rt p w ≡ done (tt, record w { clock_reads = suc w.clock_reads }))
      × ((w.store p).token_expiry < rt.now w.clock_reads + 2 * minute
          → (rt.sign (fresh_claims w p (rt.now (suc w.clock_reads))) w.room.jwt_secret ≡ none
              → check_and_refresh_token rt p w
                ≡ done (tt, record w { clock_reads = suc (suc w.clock_reads) }))
            × ((token : Bytes)
                → rt.sign (fresh_claims w p (rt.now (suc w.clock_reads))) w.room.jwt_secret
                  ≡ some token
                → (w' : World) × (check_and_refresh_token rt p w ≡ done (tt, w'))
                  × ((w'.store p).token_expiry ≡ (
                      if has_space w p
                      then rt.now (suc (suc w.clock_reads)) + 15 * minute
                      else (w.store p).token_expiry))
                  × ((w'.store p).send.queue ≡ (
                      if has_space w p
                      then (w.store p).send.queue
                        ++ js.message_json (
                            built rt js
                              (sending rt js w)
                              type_token_update
                              w.room.code
                              system_user
                              (token_update token))
                          ∷ []
                      else (w.store p).send.queue))))
check_and_refresh_token_lem rt js p w h = (
  refresh_early rt js p w,
  λ late.
      (refresh_failed rt js p w late, λ token signed. refresh_late rt js p w token h late signed),
)
