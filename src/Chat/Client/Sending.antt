-- ===== src/Chat/Client/Sending.antt =====
-- client.go: what the server sends to one client. NewMessage, sendMessage, SendError, SendInitData,
-- SendTokenUpdateMessage, sendConfirmation, Kick.
use mathlib.Core.Option
use hzchat_server.Common.{
  ℕ, ◌/◌, Bool, true, false, [], ◌∷◌, ◌++◌, Option, none, some, if◌then◌else◌,
}
use hzchat_server.Text.{Bytes, bytes, bytes_eq}
use hzchat_server.Errs.{CustomError, err_unknown}
use hzchat_server.Chat.Channel.{Sent, sent, full, panics, send, poll_or_close, make}
use hzchat_server.Chat.Message.{
  User, system_user, Payload, Message, InitDataPayload, init_data, error, token_update, confirm,
  type_init_data, type_error, type_token_update, type_confirm,
}
use hzchat_server.Chat.World.{
  World, Client, Runtime, Frame, close_frame, Outcome, done, panicked, exited, M, ◌>>=◌, ◌>>◌,
  return, skip, get_client, get_room, update, modify_client, read_clock, draw_id,
}

abbrev pub ws_close_code_session_kicked : ℕ
ws_close_code_session_kicked = 4001

abbrev pub send_buffer : ℕ
send_buffer = 256

-- NewClient
unfoldable pub new_client : User → ℕ → Client
new_client user expiry = record {
  user = user;
  token_expiry = expiry;
  send = make send_buffer;
  written = [];
  conn_closed = false;
}

-- Time.UnixMilli
abbrev pub unix_milli : ℕ → ℕ
unix_milli t = t / 1000000

-- An error value: one of package errs, or any other with its text.
pub data GoError : Type 0 where
  custom : CustomError → GoError
  plain : Bytes → GoError

-- c.send <- messageBytes in a select with a default: whether it was queued.
unfoldable pub queue_result : ℕ → World → Sent Bytes → Outcome (Bool × World)
queue_result p w (sent ch) =
    done (true, record w { store = update w.store p (record (w.store p) { send = ch }) })
queue_result p w full = done (false, w)
queue_result p w panics = panicked

unfoldable pub queue_bytes : ℕ → Bytes → M Bool
unfolding queue_result
queue_bytes p b w = queue_result p w (send b (w.store p).send)

-- select { case <-c.send: default: close(c.send) }
unfoldable pub close_send : ℕ → M (Unit {0})
close_send p = modify_client p (λ c. record c { send = poll_or_close c.send })

module _ (rt : Runtime) where
  -- NewMessage; none is its error.
  unfoldable pub new_message : Bytes → Bytes → User → Payload → M (Option Message)
  new_message type room_code sender payload = do
    id ← draw_id rt
    now ← read_clock rt
    return (
        Option.map
          (λ (payload_bytes : Bytes).
            let m : Message = record {
              id = id;
              type = type;
              room_code = room_code;
              sender = sender;
              payload = payload_bytes;
              timestamp = unix_milli now;
              temp_id = [];
            } in
            m)
          (rt.marshal_payload payload))

  unfoldable pub queue_marshalled : ℕ → Option Bytes → M Bool
  queue_marshalled p none = return false
  queue_marshalled p (some b) = queue_bytes p b

  -- sendMessage: whether the error is nil.
  unfoldable pub send_message : ℕ → Message → M Bool
  unfolding queue_marshalled
  send_message p m = queue_marshalled p (rt.marshal_message m)

  unfoldable pub send_if_built : ℕ → Option Message → M Bool
  send_if_built p none = return false
  send_if_built p (some m) = send_message p m

  -- SendTokenUpdateMessage: whether the error is nil.
  unfoldable pub send_token_update_message : ℕ → Bytes → M Bool
  unfolding send_if_built
  send_token_update_message p new_token = do
    room ← get_room
    msg ← new_message type_token_update room.code system_user (token_update new_token)
    send_if_built p msg

  abbrev pub error_code : GoError → ℕ
  error_code (custom e) = e.code
  error_code (plain text) = err_unknown

  abbrev pub error_message : GoError → Bytes
  error_message (custom e) = e.message
  error_message (plain text) = bytes "Internal server error: " ++ text

  -- Where the message is not built, logx.Fatal ends the process.
  unfoldable pub send_or_exit : ℕ → Option Message → M (Unit {0})
  send_or_exit p none w = exited
  send_or_exit p (some m) w = (send_message p m >>= λ _. skip) w

  -- SendError
  unfoldable pub send_error : ℕ → GoError → M (Unit {0})
  unfolding send_or_exit
  send_error p e = do
    room ← get_room
    msg ← new_message type_error room.code system_user (error (error_code e) (error_message e))
    send_or_exit p msg

  -- SendInitData: whether the error is nil.
  unfoldable pub send_init_data : ℕ → InitDataPayload → M Bool
  unfolding send_if_built
  send_init_data p payload = do
    room ← get_room
    msg ← new_message type_init_data room.code system_user (init_data payload)
    send_if_built p msg

  -- sendConfirmation
  unfoldable pub send_confirmation : ℕ → Bytes → Message → M (Unit {0})
  unfolding send_if_built
  send_confirmation p original_temp_id m = if bytes_eq original_temp_id [] then skip else do
    room ← get_room
    c ← get_client p
    msg ← new_message type_confirm room.code c.user (confirm original_temp_id m.id m.timestamp)
    send_if_built p msg
    skip

  -- conn.WriteMessage: whether the error is nil.
  unfoldable pub write_frame : ℕ → Frame → M Bool
  write_frame p frame = do
    c ← get_client p
    if rt.write_message p c frame
        then modify_client p (λ d. record d { written = d.written ++ frame ∷ [] }) >> return true
        else return false

  -- Kick; the deadline's error is not looked at.
  unfoldable pub kick : ℕ → Bytes → M (Unit {0})
  kick p reason = do
    write_frame p (close_frame (rt.format_close_message ws_close_code_session_kicked reason))
    close_send p
