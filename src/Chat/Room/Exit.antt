-- ===== src/Chat/Room/Exit.antt =====
-- The end of a room: what cleanupOnExit leaves, and what it means for the goroutines that still hold
-- the room.
use hzchat_server.Common.{
  ℕ, ◌≡◌, refl, ap, ◌∙◌, Bool, true, false, List, [], ◌∷◌, ◌++◌, arith, ltb, length, Bool-cases,
  inl, inr,
}
use hzchat_server.Text.{Bytes}
use hzchat_server.Chat.Channel.{Channel, send, poll_or_close}
use hzchat_server.Chat.World.{World, Runtime, done, panicked, update}
use hzchat_server.Chat.Client.Sending.{close_send}
use hzchat_server.Chat.Client.Pumps.{cleanup_on_disconnect}
use hzchat_server.Chat.Room.Handlers.{
  cleanup_on_exit, close_all, notify_manager, close_inputs, register_client,
}

-- The channels on which a gone room still receives are closed.
abbrev pub IsGone : World → Type 0
IsGone w =
    (w.room.register_closed ≡ true)
    × (w.room.unregister_closed ≡ true)
    × (w.room.timer_running ≡ false)

close_all-room :
    (rt : Runtime) (cs : List (Bytes × ℕ)) (w : World)
    → (w' : World) × (close_all rt cs w ≡ done (tt, w')) × (w'.room ≡ w.room)
unfolding close_all close_send
close_all-room rt [] w = (w, refl, refl)
close_all-room rt ((_, p) ∷ cs) w = close_all-room rt cs (record w {
  store = update w.store p (record (w.store p) { send = poll_or_close (w.store p).send });
})

notify_manager-room :
    (rt : Runtime) (w : World)
    → (w' : World) × (notify_manager rt w ≡ done (tt, w')) × (w'.room ≡ w.room)
unfolding notify_manager send
notify_manager-room rt w = elim (Bool-cases w.cleanup.closed) [
  | inl e ↦ (w, ground (arith, e), refl)
  | inr e ↦ elim (Bool-cases (ltb (length w.cleanup.queue) w.cleanup.capacity)) [
    | inl room_left ↦
        let ch : Channel Bytes = record w.cleanup { queue = w.cleanup.queue ++ w.room.code ∷ [] } in
        (record w { cleanup = ch }, ground (arith, e, room_left), refl)
    | inr full ↦ (w, ground (arith, e, full), refl)
  ]
]

-- cleanupOnExit returns in every state, the manager's cleanup channel closed or full included.
pub cleanup_on_exit-IsGone :
    (rt : Runtime) (w : World) → (w' : World) × (cleanup_on_exit rt w ≡ done (tt, w')) × IsGone w'
unfolding cleanup_on_exit close_inputs
cleanup_on_exit-IsGone rt w =
    let t = record w { room = record w.room { timer_running = false } } in
    let (u, e, same) = notify_manager-room rt t in
    let (v, f, same') = close_all-room rt u.room.clients u in
    (
      record v {
        room = record v.room {
          broadcast = poll_or_close v.room.broadcast;
          register_closed = true;
          unregister_closed = true;
        };
      },
      ground (arith, e, f),
      (refl, refl, ap (λ r. r.timer_running) (same' ∙ same)),
    )

-- Once its loop has ended, a room is deadly for the goroutines that still hold it: a client that
-- disconnects then panics in cleanupOnDisconnect, by the send on the closed unregister channel, and a
-- connection that is registered then panics in RegisterClient.
pub gone-panics :
    (rt : Runtime) (w : World) (p : ℕ) (room_ready : Bool)
    → (w' : World) × (cleanup_on_exit rt w ≡ done (tt, w'))
      × (cleanup_on_disconnect rt p room_ready w' ≡ panicked)
      × (register_client rt p room_ready w' ≡ panicked)
unfolding cleanup_on_disconnect register_client
gone-panics rt w p room_ready =
    let (w', e, (r, u, _)) = cleanup_on_exit-IsGone rt w in
    (w', e, ground (arith, u), ground (arith, r))
