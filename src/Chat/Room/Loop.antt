-- ===== src/Chat/Room/Loop.antt =====
-- room.go: the event loop Run. Its select takes one event at a time, in any order.
use hzchat_server.Common.{ℕ, Bool, true, false, List, [], ◌∷◌, if◌then◌else◌}
use hzchat_server.Chat.Channel.{Received, item, finished, waits, receive}
use hzchat_server.Chat.Message.{Message}
use hzchat_server.Chat.World.{Runtime, blocked, M, ◌>>=◌, ◌>>◌, return, get_room, put_room}
use hzchat_server.Chat.Room.Handlers.{
  handle_register, handle_unregister, handle_broadcast, cleanup_on_exit,
}

-- What the select of Run takes: a client from one of the unbuffered channels, the next message of the
-- broadcast channel, the timer's signal, or the closed stop channel.
pub data RoomEvent : Type 0 where
  registers unregisters : ℕ → RoomEvent
  broadcasts : RoomEvent
  times_out : RoomEvent
  stops : RoomEvent

-- The zero value of a Message, which a receive from a closed channel yields.
abbrev pub zero_message : Message
zero_message = record {
  id = [];
  type = [];
  room_code = [];
  sender = record { id = []; nickname = []; avatar = []; user_type = [] };
  payload = [];
  timestamp = 0;
  temp_id = [];
}

module _ (rt : Runtime) where
  unfoldable pub take_message : Received Message → M Bool
  take_message (item m rest) = do
    room ← get_room
    put_room (record room { broadcast = rest })
    handle_broadcast rt m
    return true
  take_message finished = handle_broadcast rt zero_message >> return true
  take_message waits = λ w. blocked

  -- One round of Run: whether the loop goes on. Where a case of the select is not ready, the round
  -- stands still.
  unfoldable pub run_step : RoomEvent → M Bool
  run_step (registers p) = handle_register rt p >> return true
  run_step (unregisters p) = handle_unregister rt p >> return true
  run_step broadcasts = do room ← get_room; take_message (receive room.broadcast)
  run_step times_out = do
    room ← get_room
    if room.timer_running then return false else (λ w. blocked)
  run_step stops = do room ← get_room; if room.stop_closed then return false else (λ w. blocked)

  -- Run over the events that its select takes: whether it still runs behind them.
  unfoldable pub run : List RoomEvent → M Bool
  run [] = return true
  run (event ∷ events) = do
    running ← run_step event
    elim running [ true ↦ run events | false ↦ cleanup_on_exit rt >> return false ]
