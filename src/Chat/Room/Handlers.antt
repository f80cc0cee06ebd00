-- ===== src/Chat/Room/Handlers.antt =====
-- room.go: NewRoom, handleRegister, handleUnregister, handleBroadcast, cleanupOnExit, IsFull,
-- GetInitDataPayload, RegisterClient, Stop.
use hzchat_server.Common.{
  ℕ, Bool, true, false, ◌&&◌, List, [], ◌∷◌, Option, none, some, ltb, leb, ◌==◌, if◌then◌else◌,
  length, not,
}
use hzchat_server.Text.{Bytes, bytes, bytes_eq, lookup, insert, delete}
use hzchat_server.Chat.Channel.{Sent, sent, full, panics, send, poll_or_close, make}
use hzchat_server.Chat.Message.{
  User, system_user, Message, InitDataPayload, user_event, type_user_joined, type_user_left,
  type_error,
}
use hzchat_server.Chat.World.{
  World, Client, Room, Runtime, Outcome, done, panicked, blocked, M, ◌>>=◌, ◌>>◌, return, skip,
  get_client, get_room, put_room,
}
use hzchat_server.Chat.Client.Sending.{
  new_message, send_error, send_init_data, kick, close_send, queue_bytes, plain,
}

abbrev pub broadcast_channel_buffer : ℕ
broadcast_channel_buffer = 1024

abbrev pub private_max_clients : ℕ
private_max_clients = 2

abbrev pub group_max_clients : ℕ
group_max_clients = 10

-- NewRoom; its timer runs.
unfoldable pub new_room : Bytes → ℕ → Bytes → Room
new_room room_code max_clients jwt_secret = record {
  code = room_code;
  max_clients = max_clients;
  jwt_secret = jwt_secret;
  clients = [];
  broadcast = make broadcast_channel_buffer;
  register_closed = false;
  unregister_closed = false;
  stop_closed = false;
  timer_running = true;
}

-- The capacity test of handleRegister and IsFull: MaxClients > 0 and no place is left.
abbrev pub at_capacity : Room → Bool
at_capacity r = ltb 0 r.max_clients && leb r.max_clients (length r.clients)

abbrev pub is_listed : Bytes → Room → Bool
is_listed id r = elim (lookup id r.clients) [ none ↦ false | some _ ↦ true ]

-- IsFull
unfoldable pub is_full : Room → Bytes → Bool
is_full r check_id =
    if not (bytes_eq check_id []) && is_listed check_id r then false else at_capacity r

-- The users of the clients, in the order of the range.
unfoldable pub online_users : (ℕ → Client) → List (Bytes × ℕ) → List User
online_users store [] = []
online_users store ((_, p) ∷ rest) = (store p).user ∷ online_users store rest

-- GetInitDataPayload, which handleRegister repeats.
unfoldable pub get_init_data_payload : World → User → InitDataPayload
get_init_data_payload w current_user = record {
  current_user = current_user;
  online_users = online_users w.store w.room.clients;
  max_users = w.room.max_clients;
}

abbrev get_payload : User → M InitDataPayload
get_payload user w = done (get_init_data_payload w user, w)

-- r.broadcast <- msg in a select with a default: a full channel drops the message.
unfoldable pub broadcast_or_drop : World → Message → Sent Message → Outcome (Unit {0} × World)
broadcast_or_drop w m (sent ch) = done (tt, record w { room = record w.room { broadcast = ch } })
broadcast_or_drop w m full = done (tt, w)
broadcast_or_drop w m panics = panicked

unfoldable pub offer_broadcast : Option Message → M (Unit {0})
unfolding broadcast_or_drop
offer_broadcast none w = done (tt, w)
offer_broadcast (some m) w = broadcast_or_drop w m (send m w.room.broadcast)

unfoldable pub set_timer : Bool → M (Unit {0})
set_timer running w = done (tt, record w { room = record w.room { timer_running = running } })

unfoldable pub set_clients : List (Bytes × ℕ) → M (Unit {0})
set_clients clients w = done (tt, record w { room = record w.room { clients = clients } })

module _ (rt : Runtime) where
  -- The first step of handleRegister: the old connection of the same user is kicked.
  unfoldable pub kick_existing : Option ℕ → M (Unit {0})
  kick_existing none = skip
  kick_existing (some q) = kick rt q (bytes "Session replaced by new connection. Check other tabs.")

  -- After SendInitData. Where it failed, `r.unregister <- client` waits for the loop that runs this
  -- handler, for ever.
  unfoldable pub announce_join : ℕ → Bool → M (Unit {0})
  announce_join p false = λ w. blocked
  announce_join p true = do
    room ← get_room
    c ← get_client p
    msg ← new_message rt type_user_joined room.code system_user (user_event c.user)
    offer_broadcast msg

  -- The rejection of a new user by a full room.
  unfoldable pub reject_client : ℕ → M (Unit {0})
  reject_client p = do send_error rt p (plain (bytes "room is full")); close_send p

  -- From "Register client" on.
  unfoldable pub admit_client : ℕ → M (Unit {0})
  unfolding set_clients
  admit_client p = do
    c ← get_client p
    room ← get_room
    set_clients (insert c.user.id p room.clients)
    payload ← get_payload c.user
    initialised ← send_init_data rt p payload
    announce_join p initialised

  -- handleRegister; a stopped timer holds no signal to drain.
  unfoldable pub handle_register : ℕ → M (Unit {0})
  unfolding set_timer
  handle_register p = do
    c ← get_client p
    room ← get_room
    kick_existing (lookup c.user.id room.clients)
    set_timer false
    if not (is_listed c.user.id room) && at_capacity room then reject_client p else admit_client p

  -- The part of handleUnregister for the current connection.
  unfoldable pub remove_client : ℕ → M (Unit {0})
  unfolding set_clients set_timer
  remove_client p = do
    c ← get_client p
    room ← get_room
    set_clients (delete c.user.id room.clients)
    close_send p
    msg ← new_message rt type_user_left room.code system_user (user_event c.user)
    offer_broadcast msg
    left ← get_room
    if length left.clients == 0 then set_timer true else skip

  unfoldable pub unregister_listed : ℕ → Option ℕ → M (Unit {0})
  unregister_listed p none = skip
  unregister_listed p (some current) = if current == p then remove_client p else skip

  -- handleUnregister
  unfoldable pub handle_unregister : ℕ → M (Unit {0})
  unfolding unregister_listed
  handle_unregister p = do
    c ← get_client p
    room ← get_room
    unregister_listed p (lookup c.user.id room.clients)

  -- The loop of handleBroadcast. Where a client's channel is full, `r.unregister <- client` is tried
  -- with a default: the loop that would take it runs this handler, so it is never taken.
  unfoldable pub deliver : Bytes → Bytes → List (Bytes × ℕ) → M (Unit {0})
  deliver sender_id b [] = skip
  deliver sender_id b ((_, p) ∷ rest) = do
    c ← get_client p
    if bytes_eq c.user.id sender_id then skip else queue_bytes p b >> skip
    deliver sender_id b rest

  unfoldable pub deliver_marshalled : Bytes → Option Bytes → M (Unit {0})
  deliver_marshalled sender_id none = skip
  deliver_marshalled sender_id (some b) = do room ← get_room; deliver sender_id b room.clients

  -- handleBroadcast
  unfoldable pub handle_broadcast : Message → M (Unit {0})
  unfolding deliver_marshalled
  handle_broadcast m =
      if bytes_eq m.type type_error
      then skip
      else deliver_marshalled m.sender.id (rt.marshal_message m)

  unfoldable pub close_all : List (Bytes × ℕ) → M (Unit {0})
  close_all [] = skip
  close_all ((_, p) ∷ rest) = do close_send p; close_all rest

  -- The notification of the manager: a full channel skips it, and the panic of a closed one is
  -- recovered.
  unfoldable pub notify_result : World → Sent Bytes → Outcome (Unit {0} × World)
  notify_result w (sent ch) = done (tt, record w { cleanup = ch })
  notify_result w full = done (tt, w)
  notify_result w panics = done (tt, w)

  unfoldable pub notify_manager : M (Unit {0})
  unfolding notify_result
  notify_manager w = notify_result w (send w.room.code w.cleanup)

  -- The room's own channels: register and unregister hold nothing, so they are closed.
  unfoldable pub close_inputs : M (Unit {0})
  close_inputs = do
    room ← get_room
    put_room (record room {
      broadcast = poll_or_close room.broadcast;
      register_closed = true;
      unregister_closed = true;
    })

  -- cleanupOnExit
  unfoldable pub cleanup_on_exit : M (Unit {0})
  unfolding set_timer
  cleanup_on_exit = do
    set_timer false
    notify_manager
    room ← get_room
    close_all room.clients
    close_inputs

  -- RegisterClient: whether the room took the client, which it does if it waits in its select.
  unfoldable pub register_client : ℕ → Bool → M Bool
  register_client p room_ready = do
    room ← get_room
    if room.register_closed
        then (λ w. panicked)
        else if room_ready
        then return true
        else (send_error rt p (plain (bytes "room is busy, register channel blocked"))
            >> return false)

-- Stop
unfoldable pub stop : Room → Room
stop r = record r { stop_closed = true }
