-- ===== src/Handler/Rooms/Tests.antt =====
-- The creation of a private room at a new manager.
use hzchat_server.Common.{ℕ, ◌≡◌, ◌⊎◌, Option, some, [], arith}
use hzchat_server.Common.Int.{pos}
use hzchat_server.Text.{Bytes, bytes}
use hzchat_server.Errs.{CustomError}
use hzchat_server.Http.{bound, unbound, bind_json}
use hzchat_server.Randx.Laws.{InRange}
use hzchat_server.Chat.Manager.{Manager, new_manager}
use hzchat_server.Chat.Manager.Laws.{new_manager-IsValid}
use hzchat_server.Chat.Fixture.{empty_world}
use hzchat_server.Handler.Rooms.{refused, CreateRoomInput, handle_create_room}
use hzchat_server.Handler.Rooms.Laws.{IsAnswer, handle_create_room_lem}

abbrev empty : Manager
empty = new_manager (bytes "secret") (λ p. empty_world.room)

abbrev tens : ℕ → Option ℕ
tens i = some 10

tens-InRange : InRange tens
tens-InRange i num h = ground arith

abbrev decode : Bytes → Option (CreateRoomInput × Bytes)
decode body = some (record { type = bytes "private"; max_clients = pos 7 }, [])

handle_create_room_lem_example :
    let o = handle_create_room decode (bytes "application/json") (bytes "{}") tens empty in
    ((e : CustomError) × (bind_json decode (bytes "application/json") (bytes "{}") ≡ unbound e)
      × (o ≡ (refused e, empty)))
    ⊎ ((input : CreateRoomInput) × (bind_json decode (bytes "application/json") (bytes "{}")
          ≡ bound input)
        × IsAnswer tens input.type empty o)
handle_create_room_lem_example =
    handle_create_room_lem decode (bytes "application/json") (bytes "{}") tens empty tens-InRange
      (new_manager-IsValid (bytes "secret") (λ p. empty_world.room))
