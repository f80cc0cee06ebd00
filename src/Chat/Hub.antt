-- ===== src/Chat/Hub.antt =====
-- The goroutines of one room together: the loop Run of room.go, and for every connection the pumps of
-- client.go. A step of any of them may come next.
pub mod Safety
mod Tests
use hzchat_server.Common.{ℕ, ◌≡◌, ◌≢◌, Bool, true, false, List, [], Option, none, some}
use hzchat_server.Text.{Bytes, lookup}
use hzchat_server.Chat.Message.{User}
use hzchat_server.Chat.World.{World, Runtime, done, update}
use hzchat_server.Chat.Client.Sending.{new_client}
use hzchat_server.Chat.Client.Inbound.{process_inbound_message}
use hzchat_server.Chat.Client.Pumps.{PumpEvent, write_pump_step, cleanup_on_disconnect}
use hzchat_server.Chat.Room.Handlers.{new_room, register_client, stop}
use hzchat_server.Chat.Room.Loop.{
  RoomEvent, registers, unregisters, broadcasts, times_out, stops, run_step,
}
use hzchat_server.Chat.Room.Registering.{IsFresh}

-- The case of the select that takes this event is ready. A client that registers is one that HandleWebSocket
-- has just made.
unfoldable pub IsReady : World → RoomEvent → Type 0
IsReady w (registers p) = IsFresh w p
IsReady w (unregisters p) = Unit
IsReady w broadcasts = w.room.broadcast.queue ≢ []
IsReady w times_out = w.room.timer_running ≡ true
IsReady w stops = w.room.stop_closed ≡ true

-- One step: a new connection at a pointer that the room does not list, a registration that finds the
-- room busy, a round of Run that goes on, a message that ReadPump has read, a round of WritePump, the end
-- of ReadPump, or a call of Stop. A registration or a departure that the room takes is a round of Run. A
-- step that panics or stands still leads to no state here: a panic of WritePump or of Run ends the process,
-- while one in the handler's goroutine, where ReadPump runs too, is recovered by the router.
pub data Step (rt : Runtime) : World → World → Type 0 where
  connects :
      (w : World) (p : ℕ) (user : User) (expiry : ℕ)
      → ((id : Bytes) → lookup id w.room.clients ≢ some p)
      → Step rt w (record w { store = update w.store p (new_client user expiry) })
  rounds :
      (w w' : World) (event : RoomEvent)
      → IsReady w event
      → run_step rt event w ≡ done (true, w')
      → Step rt w w'
  finds_busy :
      (w w' : World) (p : ℕ) → register_client rt p false w ≡ done (false, w') → Step rt w w'
  reads :
      (w w' : World) (p : ℕ) (message_bytes : Bytes)
      → process_inbound_message rt p message_bytes w ≡ done (tt, w')
      → Step rt w w'
  pumps :
      (w w' : World) (p : ℕ) (event : PumpEvent) (running : Bool)
      → write_pump_step rt p event w ≡ done (running, w')
      → Step rt w w'
  departs :
      (w w' : World) (p : ℕ) (room_ready taken : Bool)
      → cleanup_on_disconnect rt p room_ready w ≡ done (taken, w')
      → Step rt w w'
  halts : (w : World) → Step rt w (record w { room = stop w.room })

-- The states that a new room can come to.
pub data Reach (rt : Runtime) : World → Type 0 where
  begins :
      (w : World) (code secret : Bytes) (max_clients : ℕ)
      → w.room ≡ new_room code max_clients secret
      → Reach rt w
  follows : (w w' : World) → Reach rt w → Step rt w w' → Reach rt w'
