-- ===== src/Chat/Hub/Safety.antt =====
-- The invariant of room.go along the steps of all goroutines of a room.
use hzchat_server.Common.{
  ℕ, ◌≡◌, ◌≢◌, refl, ap, Bool, true, false, List, [], ◌∷◌, some, arith, ==_iff,
}
use hzchat_server.Text.{Bytes, bytes, lookup}
use hzchat_server.Chat.Channel.{Channel, receive, receive_from}
use hzchat_server.Chat.Message.{Message}
use hzchat_server.Chat.World.{World, Client, Runtime, done, ◌>>◌, return, update}
use hzchat_server.Chat.Client.Sending.{new_client, plain, send_error}
use hzchat_server.Chat.Keeps.{Marshals, Keeps-update, Keeps-broadcast}
use hzchat_server.Chat.Frames.{
  Frames, Frames-bind, Frames-read, send_error-Frames, process_inbound_message-Frames,
}
use hzchat_server.Chat.Frames.Pump.{write_pump_step-Frames}
use hzchat_server.Chat.Room.Handlers.{new_room, handle_broadcast, register_client, stop}
use hzchat_server.Chat.Client.Pumps.{cleanup_on_disconnect}
use hzchat_server.Chat.Room.Loop.{
  RoomEvent, registers, unregisters, broadcasts, times_out, stops, run_step, take_message,
}
use hzchat_server.Chat.Room.Invariant.{IsValid, Keeps-IsValid}
use hzchat_server.Chat.Room.Registering.{handle_register-IsValid}
use hzchat_server.Chat.Room.Unregistering.{handle_unregister-IsValid}
use hzchat_server.Chat.Room.Broadcasting.{handle_broadcast-delivers}
use hzchat_server.Chat.Hub.{
  IsReady, Step, connects, rounds, finds_busy, reads, pumps, departs, halts, Reach, begins, follows,
}

new_room-IsValid :
    (w : World) (code secret : Bytes) (max_clients : ℕ)
    → w.room ≡ new_room code max_clients secret
    → IsValid w
unfolding new_room lookup
new_room-IsValid w code secret max_clients h = record {
  keyed = λ id p k. absurd (ground (arith, h, k));
  opened = λ id p k. absurd (ground (arith, h, k));
  distinct = rw h tt;
  bounded = λ k. rw h (ground arith);
  timed = rw h (λ k. refl, λ k. refl);
  broadcasting = ap (λ r. r.broadcast.closed) h;
  registering = ap (λ r. r.register_closed) h;
  accepting = ap (λ r. r.unregister_closed) h;
}

connects-IsValid :
    (w : World) (p : ℕ) (c : Client)
    → ((id : Bytes) → lookup id w.room.clients ≢ some p)
    → IsValid w
    → IsValid (record w { store = update w.store p c })
unfolding update
connects-IsValid w p c out v = record {
  keyed = λ id q h. ground (arith, out id, v.keyed id q h, ==_iff p q);
  opened = λ id q h. ground (arith, out id, v.opened id q h, ==_iff p q);
  distinct = v.distinct;
  bounded = v.bounded;
  timed = v.timed;
  broadcasting = v.broadcasting;
  registering = v.registering;
  accepting = v.accepting;
}

module _ (rt : Runtime) (js : Marshals rt) where
  broadcast-IsValid :
      (m : Message) (w : World)
      → IsValid w
      → (w' : World) × (handle_broadcast rt m w ≡ done (tt, w')) × IsValid w'
  broadcast-IsValid m w v =
      let (w', f, valid, _, _) = handle_broadcast-delivers rt js m w v in (w', f, valid)

  take-IsValid :
      (queue : List Message) (w : World)
      → IsValid w
      → queue ≢ []
      → (w' : World) × (take_message rt (receive_from w.room.broadcast queue) w ≡ done (true, w'))
        × IsValid w'
  unfolding take_message receive_from
  take-IsValid [] w v h = absurd (h refl)
  take-IsValid (m ∷ rest) w v h =
      let ch : Channel Message = record w.room.broadcast { queue = rest } in
      let u : World = record w { room = record w.room { broadcast = ch } } in
      let (w', e, valid) = broadcast-IsValid m u (Keeps-IsValid (Keeps-broadcast w ch refl) v) in
      (w', ground (arith, e), valid)

  -- A round of Run on a ready event returns in every valid room, and the room is valid behind it.
  round-IsValid :
      (w : World) (event : RoomEvent)
      → IsValid w
      → IsReady w event
      → (running : Bool) × (w' : World) × (run_step rt event w ≡ done (running, w')) × IsValid w'
  unfolding run_step IsReady receive
  round-IsValid w (registers p) v fresh =
      let (w', e, (valid, _)) = handle_register-IsValid rt js w p v fresh in
      (true, w', ground (arith, e), valid)
  round-IsValid w (unregisters p) v _ =
      let (w', e, (valid, _)) = handle_unregister-IsValid rt js w p v in
      (true, w', ground (arith, e), valid)
  round-IsValid w broadcasts v h =
      let (w', e, valid) = take-IsValid w.room.broadcast.queue w v h in (true, w', e, valid)
  round-IsValid w times_out v h = (false, w, ground (arith, h), v)
  round-IsValid w stops v h = (false, w, ground (arith, h), v)

  -- RegisterClient that finds the room busy only sends an error, cleanupOnDisconnect only closes the
  -- connection, and Stop only the stop channel.
  finds_busy-IsValid :
      (w w' : World) (p : ℕ)
      → register_client rt p false w ≡ done (false, w')
      → IsValid w
      → IsValid w'
  unfolding register_client
  finds_busy-IsValid w w' p e v =
      let reason = plain (bytes "room is busy, register channel blocked") in
      let law : Frames (send_error rt p reason >> return false) =
        Frames-bind (send_error rt p reason) (λ _. return false) (send_error-Frames rt p reason)
          (λ _. Frames-read (λ u. false)) in
      Keeps-IsValid (law w w' false (ground (arith, v.registering, e))) v

  departs-IsValid :
      (w w' : World) (p : ℕ) (room_ready taken : Bool)
      → cleanup_on_disconnect rt p room_ready w ≡ done (taken, w')
      → IsValid w
      → IsValid w'
  unfolding cleanup_on_disconnect
  departs-IsValid w w' p room_ready taken e v =
      let u : World = record w {
        store = update w.store p (record (w.store p) { conn_closed = true });
      } in
      let same : u ≡ w' = ground (arith, v.accepting, e) in
      rw (← same) (Keeps-IsValid (Keeps-update w p _ refl refl) v)

  halts-IsValid : (w : World) → IsValid w → IsValid (record w { room = stop w.room })
  unfolding stop
  halts-IsValid w v = record {
    keyed = v.keyed;
    opened = v.opened;
    distinct = v.distinct;
    bounded = v.bounded;
    timed = v.timed;
    broadcasting = v.broadcasting;
    registering = v.registering;
    accepting = v.accepting;
  }

  Step-IsValid : (w w' : World) → Step rt w w' → IsValid w → IsValid w'
  Step-IsValid _ _ (connects w p user expiry out) v =
      connects-IsValid w p (new_client user expiry) out v
  Step-IsValid _ _ (rounds w w' event ready e) v =
      let (running, u, f, valid) = round-IsValid w event v ready in
      let same : u ≡ w' = cc (e, f) in rw (← same) valid
  Step-IsValid _ _ (reads w w' p b e) v =
      Keeps-IsValid (process_inbound_message-Frames rt p b w w' tt e) v
  Step-IsValid _ _ (pumps w w' p event running e) v =
      Keeps-IsValid (write_pump_step-Frames rt p event w w' running e) v
  Step-IsValid _ _ (finds_busy w w' p e) v = finds_busy-IsValid w w' p e v
  Step-IsValid _ _ (departs w w' p room_ready taken e) v =
      departs-IsValid w w' p room_ready taken e v
  Step-IsValid _ _ (halts w) v = halts-IsValid w v

  Reach-IsValid : (w : World) → Reach rt w → IsValid w
  Reach-IsValid _ (begins w code secret max_clients h) =
      new_room-IsValid w code secret max_clients h
  Reach-IsValid _ (follows u w r s) = Step-IsValid u w s (Reach-IsValid u r)

  -- From a new room on, whatever the order of new connections, registrations that find it busy, rounds
  -- of Run, inbound messages, rounds of the pumps, departures and calls of Stop: every state is valid, and in it Run returns from whichever ready case its
  -- select takes, without panic and without standing still, into a state that is valid again.
  pub run_step-safe :
      (w : World) (event : RoomEvent)
      → Reach rt w
      → IsReady w event
      → IsValid w
        × ((running : Bool) × (w' : World) × (run_step rt event w ≡ done (running, w'))
            × IsValid w')
  run_step-safe w event r ready = let v = Reach-IsValid w r in (v, round-IsValid w event v ready)
