-- ===== src/Chat/World.antt =====
-- The state that the goroutines of one room share: the room, the clients by their pointers, the
-- manager's cleanup channel, and how often the clock and the generator of ids were asked. A client is
-- known by its pointer, a number, so that two connections of one user are told apart.
use hzchat_server.Common.{ℕ, suc, Bool, List, Option, ◌==◌, if◌then◌else◌}
use hzchat_server.Text.{Bytes}
use hzchat_server.Jwt
use hzchat_server.Chat.Channel.{Channel}
use hzchat_server.Chat.Message.{User, Payload, Message, Inbound, AttachmentsPayload}

-- What is written to a WebSocket connection.
pub data Frame : Type 0 where
  text_frame : Bytes → Frame
  close_frame : Bytes → Frame
  ping_frame : Frame

-- Client, with the frames that were written to its connection and whether that is closed.
pub record Client : Type 0 where
  pub user : User
  pub token_expiry : ℕ
  pub send : Channel Bytes
  pub written : List Frame
  pub conn_closed : Bool

-- Room. The channels register and unregister have no buffer, so of them only the closing is state;
-- max_clients of 0 is no limit.
pub record Room : Type 0 where
  pub code : Bytes
  pub max_clients : ℕ
  pub jwt_secret : Bytes
  pub clients : List (Bytes × ℕ)
  pub broadcast : Channel Message
  pub register_closed : Bool
  pub unregister_closed : Bool
  pub stop_closed : Bool
  pub timer_running : Bool

pub record World : Type 0 where
  pub room : Room
  pub store : ℕ → Client
  pub cleanup : Channel Bytes
  pub clock_reads : ℕ
  pub ids_drawn : ℕ

-- What the code calls and this repository does not hold: encoding/json, the uuid generator, the
-- clock (nanoseconds since the epoch, by the number of the reading), the tables of Unicode,
-- gorilla/websocket (whether a call succeeds, by the connection and its state), and
-- the signing of tokens.
pub record Runtime : Type 0 where
  pub marshal_payload : Payload → Option Bytes
  pub marshal_message : Message → Option Bytes
  pub unmarshal_inbound : Bytes → Option Inbound
  pub unmarshal_text : Bytes → Option Bytes
  pub unmarshal_attachments : Bytes → Option AttachmentsPayload
  pub new_uuid : ℕ → Bytes
  pub now : ℕ → ℕ
  pub lower_table : ℕ → ℕ
  pub format_close_message : ℕ → Bytes → Bytes
  pub set_write_deadline : ℕ → Client → Bool
  pub write_message : ℕ → Client → Frame → Bool
  pub sign : Jwt.Payload → Bytes → Option Bytes

-- A run of a handler: it returns, panics, ends the process by logx.Fatal, or stands still at a send
-- that cannot go on.
pub data Outcome {ℓ} (A : Type ℓ) : Type ℓ where
  done : A → Outcome A
  panicked : Outcome A
  exited : Outcome A
  blocked : Outcome A

abbrev pub M : Type 0 → Type 0
M A = World → Outcome (A × World)

infixl 5 ◌>>=◌ ◌>>◌
abbrev pub ◌>>=◌ : {A B : Type 0} → M A → (A → M B) → M B
◌>>=◌ m f w = elim (m w) [
  | done (a, w') ↦ f a w'
  | panicked ↦ panicked
  | exited ↦ exited
  | blocked ↦ blocked
]

abbrev pub ◌>>◌ : {A B : Type 0} → M A → M B → M B
◌>>◌ m k = m >>= λ _. k

abbrev pub return : {A : Type 0} → A → M A
return a w = done (a, w)

abbrev pub skip : M (Unit {0})
skip w = done (tt, w)

abbrev pub get_client : ℕ → M Client
get_client p w = done (w.store p, w)

abbrev pub get_room : M Room
get_room w = done (w.room, w)

-- A write through a pointer.
unfoldable pub update : (ℕ → Client) → ℕ → Client → ℕ → Client
update store p c q = if p == q then c else store q

abbrev pub put_client : ℕ → Client → M (Unit {0})
put_client p c w = done (tt, record w { store = update w.store p c })

abbrev pub put_room : Room → M (Unit {0})
put_room r w = done (tt, record w { room = r })

abbrev pub modify_client : ℕ → (Client → Client) → M (Unit {0})
modify_client p f w = done (tt, record w { store = update w.store p (f (w.store p)) })

module _ (rt : Runtime) where
  -- time.Now()
  abbrev pub read_clock : M ℕ
  read_clock w = done (rt.now w.clock_reads, record w { clock_reads = suc w.clock_reads })

  -- uuid.New().String(), which is randx.MessageID
  abbrev pub draw_id : M Bytes
  draw_id w = done (rt.new_uuid w.ids_drawn, record w { ids_drawn = suc w.ids_drawn })
