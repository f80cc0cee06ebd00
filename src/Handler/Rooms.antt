-- ===== src/Handler/Rooms.antt =====
-- internal/handler/room_handler.go: HandleCreateRoom. The decoding of its input is an argument, and
-- so are the readings of the random source.
pub mod Laws
mod Tests
use hzchat_server.Common.{ℕ, Bool, true, false, List, [], Option, none, some, ◌==◌, if◌then◌else◌}
use hzchat_server.Common.Int.{ℤ}
use hzchat_server.Text.{Bytes, bytes, bytes_eq}
use hzchat_server.Errs.{CustomError, new_error, err_room_type_invalid, err_unknown}
use hzchat_server.Randx.{Drawn, failed, text, out_of_range, room_code}
use hzchat_server.Http.{Bound, bound, unbound, bind_json}
use hzchat_server.Chat.Room.Handlers.{private_max_clients, group_max_clients}
use hzchat_server.Chat.Manager.{Manager, Created, created, rejected, panicked, create_room}

-- The response, or the panic of the handler.
pub data Reply : Type 0 where
  refused : CustomError → Reply
  replied : Bytes → Reply
  crashed : Reply

-- The switch over the type of the room; 0 where no case fits.
unfoldable pub max_clients_of : Bytes → ℕ
max_clients_of type =
    if bytes_eq type (bytes "private")
    then private_max_clients
    else if bytes_eq type (bytes "group")
    then group_max_clients
    else 0

unfoldable pub reply_created : Manager → Created → Reply × Manager
reply_created m (created p m') = (replied (m'.store p).code, m')
reply_created m (rejected e) = (refused e, m)
reply_created m panicked = (crashed, m)

unfoldable pub create_drawn : ℕ → Manager → Drawn → Reply × Manager
create_drawn max_clients m failed = (refused (new_error err_unknown), m)
create_drawn max_clients m out_of_range = (crashed, m)
create_drawn max_clients m (text code) = reply_created m (create_room code max_clients m)

pub record CreateRoomInput : Type 0 where
  pub type : Bytes
  pub max_clients : ℤ

-- HandleCreateRoom behind the reading of its input, of which it uses the type only.
unfoldable pub create_room_of : (ℕ → Option ℕ) → Bytes → Manager → Reply × Manager
create_room_of rand type m =
    if max_clients_of type == 0
    then (refused (new_error err_room_type_invalid), m)
    else create_drawn (max_clients_of type) m (room_code rand)

unfoldable pub create_bound : (ℕ → Option ℕ) → Manager → Bound CreateRoomInput → Reply × Manager
create_bound rand m (unbound e) = (refused e, m)
create_bound rand m (bound input) = create_room_of rand input.type m

-- HandleCreateRoom, with the header Content-Type and the body, and with what becomes of the manager.
unfoldable pub handle_create_room :
    (Bytes → Option (CreateRoomInput × Bytes))
    → Bytes
    → Bytes
    → (ℕ → Option ℕ)
    → Manager
    → Reply × Manager
handle_create_room decode content_type body rand m =
    create_bound rand m (bind_json decode content_type body)
