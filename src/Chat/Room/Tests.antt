-- ===== src/Chat/Room/Tests.antt =====
-- The room's theorems at a room with one client.
use hzchat_server.Common.{if◌then◌else◌, ℕ, ◌≡◌, refl, true, [], some, arith}
use hzchat_server.Text.{Bytes, bytes, bytes_eq, bytes_eq_iff, lookup}
use hzchat_server.Chat.Message.{Message, text, type_text, type_error}
use hzchat_server.Chat.World.{World, done, panicked}
use hzchat_server.Chat.Client.Sending.{new_client}
use hzchat_server.Chat.Client.Pumps.{cleanup_on_disconnect}
use hzchat_server.Chat.Room.Handlers.{
  new_room, handle_register, handle_unregister, handle_broadcast, cleanup_on_exit, register_client,
}
use hzchat_server.Chat.Room.Invariant.{IsValid}
use hzchat_server.Chat.Room.Registering.{IsFresh, Registered, handle_register-IsValid}
use hzchat_server.Chat.Room.Unregistering.{Unregistered, handle_unregister-IsValid}
use hzchat_server.Chat.Room.Broadcasting.{after_delivery, handle_broadcast-delivers}
use hzchat_server.Chat.Client.Inbound.{handle_text}
use hzchat_server.Chat.Client.Posting.{IsPosted}
use hzchat_server.Chat.Room.Rejecting.{IsLeftOpen, rejected-posts}
use hzchat_server.Chat.Room.Exit.{gone-panics}
use hzchat_server.Chat.Fixture.{runtime, marshals, marshal_message, bob, world_of_ann}

ann_found :
    (id : Bytes) (p : ℕ)
    → lookup id world_of_ann.room.clients ≡ some p
    → (p ≡ 1) × (id ≡ bytes "ann")
unfolding lookup
ann_found id p h = ground (arith, bytes_eq_iff (bytes "ann") id)

pub world_of_ann-IsValid : IsValid world_of_ann
unfolding new_room new_client lookup
world_of_ann-IsValid = record {
  keyed = λ id p h. let (e, f) = ann_found id p h in rw (e, f) refl;
  opened = λ id p h. let (e, f) = ann_found id p h in rw e refl;
  distinct = (refl, tt);
  bounded = λ h. omega arith;
  timed = (λ h. cc, λ h. cc);
  broadcasting = refl;
  registering = refl;
  accepting = refl;
}

bob-IsFresh : IsFresh world_of_ann 2
unfolding new_room new_client lookup bytes_eq
bob-IsFresh = record { opening = refl; space = refl; unlisted = λ h. cc }

handle_register-IsValid_example :
    (w' : World) × (handle_register runtime 2 world_of_ann ≡ done (tt, w'))
    × Registered runtime marshals world_of_ann 2 w'
handle_register-IsValid_example =
    handle_register-IsValid runtime marshals world_of_ann 2 world_of_ann-IsValid bob-IsFresh

handle_unregister-IsValid_example :
    (w' : World) × (handle_unregister runtime 1 world_of_ann ≡ done (tt, w'))
    × Unregistered runtime marshals world_of_ann 1 w'
handle_unregister-IsValid_example =
    handle_unregister-IsValid runtime marshals world_of_ann 1 world_of_ann-IsValid

abbrev hello : Message
hello = record {
  id = bytes "m1";
  type = type_text;
  room_code = bytes "abc123";
  sender = bob;
  payload = bytes "hello";
  timestamp = 5;
  temp_id = [];
}

handle_broadcast-delivers_example :
    (w' : World) × (handle_broadcast runtime hello world_of_ann ≡ done (tt, w'))
    × IsValid w'
    × (w'.room.clients ≡ world_of_ann.room.clients)
    × ((p : ℕ)
        → w'.store p ≡ (
            if bytes_eq hello.type type_error
            then world_of_ann.store p
            else after_delivery bob.id
                (marshal_message hello)
                world_of_ann.room.clients
                p
                (world_of_ann.store p)))
handle_broadcast-delivers_example =
    handle_broadcast-delivers runtime marshals hello world_of_ann world_of_ann-IsValid

gone-panics_example :
    (w' : World) × (cleanup_on_exit runtime world_of_ann ≡ done (tt, w'))
    × (cleanup_on_disconnect runtime 1 true w' ≡ panicked)
    × (register_client runtime 1 true w' ≡ panicked)
gone-panics_example = gone-panics runtime world_of_ann 1 true

-- Ann is in a room with one place.
abbrev full_world : World
full_world = record world_of_ann { room = record world_of_ann.room { max_clients = 1 } }

full_world-IsValid : IsValid full_world
full_world-IsValid = record {
  keyed = world_of_ann-IsValid.keyed;
  opened = world_of_ann-IsValid.opened;
  distinct = world_of_ann-IsValid.distinct;
  bounded = λ h. omega arith;
  timed = world_of_ann-IsValid.timed;
  broadcasting = world_of_ann-IsValid.broadcasting;
  registering = world_of_ann-IsValid.registering;
  accepting = world_of_ann-IsValid.accepting;
}

rejected-posts_example :
    (w' : World) × (handle_register runtime 2 full_world ≡ done (tt, w'))
    × IsLeftOpen full_world 2 w'
    × IsPosted runtime marshals w' 2 [] type_text
        (text (bytes "hello"))
        (handle_text runtime 2 (bytes "hello") [] w')
unfolding new_room new_client lookup bytes_eq
rejected-posts_example =
    rejected-posts runtime marshals full_world 2 (bytes "hello") [] (bytes "hello")
      full_world-IsValid (record { opening = refl; space = refl; unlisted = λ h. cc }) refl refl
      refl refl refl (omega arith)
