-- ===== src/Chat/Client/Pumps.antt =====
-- client.go: the two goroutines of a client. WritePump with its steps, the refresh of the token,
-- ReadPump, and the cleanup at its end.
use hzchat_server.Common.{
  ℕ, ◌+◌, ◌*◌, Bool, true, false, List, [], ◌∷◌, Option, none, some, ltb, if◌then◌else◌, not,
}
use hzchat_server.Text.{Bytes}
use hzchat_server.Jwt.{generate_token, minute, room_access_expiration}
use hzchat_server.Jwt
use hzchat_server.Chat.Channel.{Received, item, finished, waits, receive}
use hzchat_server.Chat.World.{
  Client, Runtime, text_frame, close_frame, ping_frame, panicked, blocked, M, ◌>>=◌, ◌>>◌, return,
  skip, get_client, get_room, modify_client, read_clock,
}
use hzchat_server.Chat.Client.Sending.{write_frame, send_token_update_message}
use hzchat_server.Chat.Client.Inbound.{process_inbound_message}

abbrev pub token_refresh_window : ℕ
token_refresh_window = 2 * minute

-- conn.Close
abbrev pub close_conn : ℕ → M (Unit {0})
close_conn p = modify_client p (λ c. record c { conn_closed = true })

-- What the select of WritePump takes next.
pub data PumpEvent : Type 0 where
  from_send : PumpEvent
  tick : PumpEvent

module _ (rt : Runtime) where
  -- A frame of writeQueuedMessage: the message, or for a closed channel an empty close frame.
  unfoldable pub write_received : ℕ → Option Bytes → M Bool
  write_received p (some message) = write_frame rt p (text_frame message)
  write_received p none = write_frame rt p (close_frame []) >> return false

  -- writeQueuedMessage: whether WritePump goes on.
  unfoldable pub write_queued_message : ℕ → Option Bytes → M Bool
  unfolding write_received
  write_queued_message p message = do
    c ← get_client p
    if not (rt.set_write_deadline p c) then return false else write_received p message

  -- writePingMessage: whether WritePump goes on.
  unfoldable pub write_ping_message : ℕ → M Bool
  write_ping_message p = do
    c ← get_client p
    if not (rt.set_write_deadline p c) then return false else write_frame rt p ping_frame

  -- The end of checkAndRefreshToken, with the new token or none for an error of GenerateToken.
  unfoldable pub use_new_token : ℕ → Option Bytes → M (Unit {0})
  use_new_token p none = skip
  use_new_token p (some token_string) = do
    later ← read_clock rt
    queued ← send_token_update_message rt p token_string
    if queued
        then modify_client p (λ c. record c { token_expiry = later + room_access_expiration })
        else skip

  -- The claims of a new token before GenerateToken sets the standard ones.
  abbrev pub refreshed_payload : Client → Bytes → Jwt.Payload
  refreshed_payload c room_code = record {
    expires_at = 0;
    issued_at = 0;
    issuer = [];
    id = c.user.id;
    code = room_code;
    user_type = c.user.user_type;
    nickname = c.user.nickname;
    avatar = c.user.avatar;
  }

  -- checkAndRefreshToken; its test, now after expiry - window, is written as a sum.
  unfoldable pub check_and_refresh_token : ℕ → M (Unit {0})
  unfolding use_new_token
  check_and_refresh_token p = do
    now ← read_clock rt
    c ← get_client p
    if ltb c.token_expiry (now + token_refresh_window)
        then (do
          room ← get_room
          issued ← read_clock rt
          use_new_token p
              (generate_token rt.sign issued (refreshed_payload c room.code) room.jwt_secret
                room_access_expiration).1)
        else skip

  -- A receive from the send channel; where nothing is queued the select does not take this case.
  unfoldable pub pump_received : ℕ → Received Bytes → M Bool
  pump_received p (item message rest) = do
    modify_client p (λ c. record c { send = rest })
    write_queued_message p (some message)
  pump_received p finished = write_queued_message p none
  pump_received p waits = λ w. blocked

  -- One round of WritePump: whether it goes on.
  unfoldable pub write_pump_step : ℕ → PumpEvent → M Bool
  unfolding pump_received
  write_pump_step p from_send = do c ← get_client p; pump_received p (receive c.send)
  write_pump_step p tick = do
    alive ← write_ping_message p
    if alive then check_and_refresh_token p >> return true else return false

  -- WritePump over the events that its select sees: whether it still runs behind them. At its end
  -- the connection is closed.
  unfoldable pub write_pump : ℕ → List PumpEvent → M Bool
  write_pump p [] = return true
  write_pump p (event ∷ events) = do
    running ← write_pump_step p event
    elim running [ true ↦ write_pump p events | false ↦ close_conn p >> return false ]

  -- The loop of ReadPump, over the messages that are read before a read fails.
  unfoldable pub read_loop : ℕ → List Bytes → M (Unit {0})
  read_loop p [] = skip
  read_loop p (message_bytes ∷ rest) = do
    process_inbound_message rt p message_bytes
    read_loop p rest

  -- cleanupOnDisconnect: whether the room took the client from its unregister channel, which it does
  -- if it waits in its select at that moment. On a closed channel the select panics.
  unfoldable pub cleanup_on_disconnect : ℕ → Bool → M Bool
  cleanup_on_disconnect p room_ready = do
    room ← get_room
    if room.unregister_closed then (λ w. panicked) else do close_conn p; return room_ready
