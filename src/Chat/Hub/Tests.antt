-- ===== src/Chat/Hub/Tests.antt =====
-- A registration in a new room.
use hzchat_server.Common.{◌≡◌, refl, Bool}
use hzchat_server.Text.{bytes, lookup}
use hzchat_server.Chat.World.{World, done}
use hzchat_server.Chat.Client.Sending.{new_client}
use hzchat_server.Chat.Room.Handlers.{new_room}
use hzchat_server.Chat.Room.Invariant.{IsValid}
use hzchat_server.Chat.Room.Loop.{registers, run_step}
use hzchat_server.Chat.Hub.{IsReady, begins}
use hzchat_server.Chat.Hub.Safety.{run_step-safe}
use hzchat_server.Chat.Fixture.{runtime, marshals, empty_world}

ann-IsReady : IsReady empty_world (registers 1)
unfolding IsReady new_room new_client lookup
ann-IsReady = record { opening = refl; space = refl; unlisted = λ h. cc }

run_step-safe_example :
    IsValid empty_world
    × ((running : Bool) × (w' : World) × (run_step runtime (registers 1) empty_world
          ≡ done (running, w'))
        × IsValid w')
run_step-safe_example =
    run_step-safe runtime marshals empty_world (registers 1)
      (begins empty_world (bytes "abc123") (bytes "secret") 2 refl) ann-IsReady
