-- ===== src/Lib.antt =====
-- hzchat-server: chat rooms in memory over WebSockets, with room tokens, proofs of work and an error
-- catalogue.
--
-- The parts, and how they interact. internal/app/chat/manager.go holds a map from room codes to rooms
-- and starts one goroutine per room, the loop Run of room.go, which takes registrations, departures and
-- messages from channels, one at a time. Every connection has a client (client.go) with two goroutines:
-- ReadPump checks what the browser sends and puts messages on the room's broadcast channel, WritePump
-- writes what was queued for the client, pings, and refreshes its token. A room that ends tells the
-- manager by its cleanup channel. The HTTP handlers keep accounts in a table of PostgreSQL, issue tokens
-- for accounts and rooms, and sign URLs for the storage of files.
--
-- Which file models what:
--   Text           what the code uses of Go's strings, utf8, unicode and maps
--   Errs           internal/pkg/errs: error_codes.go, error_map.go, NewError
--   Randx          internal/pkg/randx: RoomCode, UserNickname, IsValidRoomCode, IsValidGuestID
--   Jwt            internal/pkg/auth/jwt: the claims, GenerateToken, ParseToken; Jwt/Identity: the
--                  identity middleware
--   Config         internal/configs/configs.go: LoadConfig
--   Http           internal/pkg/req and internal/pkg/resp: BindJSON, SetupMultipart, the responses
--   Users          internal/app/db: the table of the migrations, the statements of sqlc/user.sql.go
--   Pow            internal/pkg/pow: the manager of nonces and proof tokens
--   Limiter        internal/pkg/limiter: GetLimiter in its two locked parts, the removal, Middleware
--   Handler/Assets internal/handler/deps.go: FullAssetURL, NormalizeAssetKey
--   Handler/Rooms  internal/handler/room_handler.go: HandleCreateRoom, with BindJSON before it
--   Handler/Joining  internal/handler/room_handler.go: HandleJoinRoom
--   Handler/Accounts  internal/handler/auth_handler.go and user_handler.go: Sessions (HandleRegister,
--                  HandleLogin), Passwords (HandleChangePassword), Profiles (HandleGetUserProfile,
--                  HandleUpdateUserProfile); Serving puts them one after the other
--   Handler/Files  internal/handler/file_handler.go: the three handlers that sign URLs
--   Handler/WebSocket  internal/handler/ws_handler.go: HandleWebSocket
--   Chat/Attachment  attachment.go: ValidateFileSize, ValidateFileType
--   Chat/Channel   Go's buffered channels, and the selects that the code uses on them
--   Chat/Message   message.go, system_user.go, internal/app/user/user.go
--   Chat/World     the state that the goroutines of one room share, and the effects of a handler
--   Chat/Client    client.go: Sending (NewMessage and all senders, Kick), Inbound (handleText,
--                  handleAttachments, processInboundMessage), Pumps (WritePump, its rounds, the loop
--                  of ReadPump, cleanupOnDisconnect)
--   Chat/Room      room.go: Handlers (handleRegister, handleUnregister, handleBroadcast, cleanupOnExit
--                  and the rest), Loop (Run)
--   Chat/Manager   manager.go: NewManager, CreateRoom, GetRoom, deleteRoom, the cleanup loop, Shutdown
--   Chat/Hub       the goroutines of a room together, as a step relation; a new connection is the end
--                  of HandleWebSocket in internal/handler/ws_handler.go
-- The other files hold lemmas and proofs: Chat/Keeps and Chat/Frames what an operation leaves alone,
-- Chat/Room/Invariant the invariant of a room, Chat/Fixture and the Tests files concrete examples.
--
-- How the model stands to the code. A Go string is a list of bytes; a map is an association list, and
-- the order of a range over it is the order of the list. A client or room is known by a number, its
-- pointer. A handler passes the state and ends in an Outcome: it returns, panics, ends the process by
-- logx.Fatal, or stands still at a send that cannot go on. A handler of the room, and one message of a
-- client, run without a step of another goroutine in between. Times are natural numbers of nanoseconds,
-- sizes of files are integers, and maxClients is a natural number with 0 for no limit. Decoding and
-- encoding of JSON, uuids, the clock, the WebSocket connection and the signing of tokens are the fields
-- of Runtime; that JSON encoding does not fail on the payload structs is the hypothesis Marshals. A
-- timer that was stopped holds no signal, which Go promises since 1.23. Logging is left out.
--
-- The account handlers pass on the table of users, a counter and the goroutines that they have started,
-- and end in a reply, an error response or a panic. The counter numbers the calls of the services that
-- this repository does not hold, the fields of Services: whether the n-th statement reaches PostgreSQL,
-- the n-th time, uuid and random source, bcrypt. What a statement does to the rows is written out from
-- its SQL; a transaction is one statement, and a request runs without another one in between.
--
-- Fuel: the decoding of UTF-8 is given the length of the text, of which every step takes a byte. All
-- else is structural recursion.
--
-- Not modelled: the router with its CheckOrigin, logging, and the start of the server, which wire the
-- parts together; the storage and the pool of connections, which only call libraries.
pub mod Common
pub mod Text
pub mod Errs
pub mod Randx
pub mod Jwt
pub mod Pow
pub mod Chat
pub mod Http
pub mod Users
pub mod Config
pub mod Limiter
pub mod Handler
