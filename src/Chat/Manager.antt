-- ===== src/Chat/Manager.antt =====
-- internal/app/chat/manager.go. Rooms are known by pointers; the map of the rooms is none after
-- Shutdown has set it to nil.
pub mod Laws
mod Tests
use hzchat_server.Common.{
  ℕ, suc, ◌+◌, Bool, true, false, List, [], ◌∷◌, Option, none, some, ◌==◌, if◌then◌else◌,
}
use hzchat_server.Text.{Bytes, lookup, insert, delete}
use hzchat_server.Errs.{CustomError, new_error, err_room_code_exists}
use hzchat_server.Chat.Channel.{Channel, make}
use hzchat_server.Chat.World.{Room}
use hzchat_server.Chat.Room.Handlers.{new_room, stop}

abbrev pub cleanup_buffer : ℕ
cleanup_buffer = 10

-- `store` holds the rooms by their pointers, `allocated` is the next free pointer.
pub record Manager : Type 0 where
  pub rooms : Option (List (Bytes × ℕ))
  pub store : ℕ → Room
  pub allocated : ℕ
  pub cleanup : Channel Bytes
  pub jwt_secret : Bytes

-- NewManager
unfoldable pub new_manager : Bytes → (ℕ → Room) → Manager
new_manager jwt_secret store = record {
  rooms = some [];
  store = store;
  allocated = 0;
  cleanup = make cleanup_buffer;
  jwt_secret = jwt_secret;
}

-- A read of the map, which may be nil.
abbrev pub find_room : Bytes → Option (List (Bytes × ℕ)) → Option ℕ
find_room code none = none
find_room code (some rooms) = lookup code rooms

unfoldable pub put_stored : (ℕ → Room) → ℕ → Room → ℕ → Room
put_stored store p r q = if p == q then r else store q

-- CreateRoom returns the new room or an error; a write to a nil map panics.
pub data Created : Type 0 where
  created : ℕ → Manager → Created
  rejected : CustomError → Created
  panicked : Created

insert_room : Bytes → ℕ → Manager → Option (List (Bytes × ℕ)) → Created
insert_room code max_clients m none = panicked
insert_room code max_clients m (some rooms) = created m.allocated (record m {
  rooms = some (insert code m.allocated rooms);
  store = put_stored m.store m.allocated (new_room code max_clients m.jwt_secret);
  allocated = suc m.allocated;
})

-- CreateRoom
unfoldable pub create_room : Bytes → ℕ → Manager → Created
unfolding insert_room
create_room code max_clients m = elim (find_room code m.rooms) [
  | some _ ↦ rejected (new_error err_room_code_exists)
  | none ↦ insert_room code max_clients m m.rooms
]

-- GetRoom; none is the nil pointer.
unfoldable pub get_room : Bytes → Manager → Option ℕ
get_room code m = find_room code m.rooms

delete_from : Bytes → Option (List (Bytes × ℕ)) → Option (List (Bytes × ℕ))
delete_from code none = none
delete_from code (some rooms) = some (delete code rooms)

-- deleteRoom; a delete of a key that is not there changes nothing.
unfoldable pub delete_room : Bytes → Manager → Manager
unfolding delete_from
delete_room code m = record m { rooms = delete_from code m.rooms }

-- runCleanupLoop, over the codes that it receives.
unfoldable pub run_cleanup_loop : List Bytes → Manager → Manager
run_cleanup_loop [] m = m
run_cleanup_loop (code ∷ codes) m = run_cleanup_loop codes (delete_room code m)

stop_all : List (Bytes × ℕ) → (ℕ → Room) → ℕ → Room
stop_all [] store = store
stop_all ((_, p) ∷ rest) store = stop_all rest (put_stored store p (stop (store p)))

stop_rooms : Option (List (Bytes × ℕ)) → (ℕ → Room) → ℕ → Room
stop_rooms none store = store
stop_rooms (some rooms) store = stop_all rooms store

-- Shutdown; none is the panic of closing the cleanup channel twice.
unfoldable pub shutdown : Manager → Option Manager
unfolding stop_all stop_rooms
shutdown m =
    if m.cleanup.closed
    then none
    else some (record m {
      rooms = none;
      store = stop_rooms m.rooms m.store;
      cleanup = record m.cleanup { closed = true };
    })
