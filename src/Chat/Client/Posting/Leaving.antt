-- ===== src/Chat/Client/Posting/Leaving.antt =====
-- What a client's post, or the error in its place, leaves of the state.
use hzchat_server.Common.{
  ℕ, ◌≡◌, ap, ◌∙◌, true, false, not, ◌&&◌, [], ◌∷◌, ◌++◌, some, arith, ltb, if◌then◌else◌, length,
}
use hzchat_server.Text.{Bytes, bytes_eq}
use hzchat_server.Chat.Channel.{send}
use hzchat_server.Chat.Message.{Message, Payload}
use hzchat_server.Chat.World.{World, Runtime, Outcome, done}
use hzchat_server.Chat.Keeps.{
  Marshals, IsOpen, has_space, Spares, deposit, deposit-store, deposit-room, deposit-Spares,
}
use hzchat_server.Chat.Client.Sending.{send_error, GoError}
use hzchat_server.Chat.Client.Effects.{
  built, later, ack, error_bytes, send_error_lem, confirmed, send_confirmation_open, confirmed-room,
  confirmed-Spares, confirmed-queue,
}
use hzchat_server.Chat.Client.Inbound.{enqueue_broadcast, confirm_and_broadcast}

-- The client's channel is open, and the room's broadcast channel is open and has space.
pub record CanPost (w : World) (p : ℕ) : Type 0 where
  pub opening : IsOpen w p
  pub speaking : w.room.broadcast.closed ≡ false
  pub space : ltb (length w.room.broadcast.queue) w.room.broadcast.capacity ≡ true

module _ (rt : Runtime) (js : Marshals rt) where
  -- The client was sent this error if it has space, and nothing else was queued for it; the room and
  -- every other client are as they were.
  abbrev pub IsAnswered : World → ℕ → GoError → Outcome (Unit {0} × World) → Type 0
  IsAnswered w p e o =
      (w' : World) × (o ≡ done (tt, w'))
      × ((w'.store p).send.queue ≡ (
          if has_space w p
          then (w.store p).send.queue ++ error_bytes rt js e w ∷ []
          else (w.store p).send.queue))
      × (w'.room ≡ w.room)
      × Spares p w w'

  -- The message of this type and payload was queued for the room, as the last one and as the client's
  -- own; the members are as they were; the client was sent the acknowledgement if it gave a temporary
  -- id and has space, and every other client is as it was.
  abbrev pub IsPosted : World → ℕ → Bytes → Bytes → Payload → Outcome (Unit {0} × World) → Type 0
  IsPosted w p temp_id type payload o =
      let m = built rt js w type w.room.code (w.store p).user payload in
      (w' : World) × (o ≡ done (tt, w'))
      × (w'.room.broadcast.queue ≡ w.room.broadcast.queue ++ m ∷ [])
      × (w'.room.clients ≡ w.room.clients)
      × ((w'.store p).send.queue ≡ (
          if not (bytes_eq temp_id []) && has_space w p
          then (w.store p).send.queue
            ++ js.message_json (ack rt js (later rt js w) p temp_id m) ∷ []
          else (w.store p).send.queue))
      × Spares p w w'

  abbrev enqueued : Message → World → World
  enqueued m w = record w {
    room = record w.room {
      broadcast = record w.room.broadcast { queue = w.room.broadcast.queue ++ m ∷ [] };
    };
  }

  enqueue_open :
      (m : Message) (w : World)
      → w.room.broadcast.closed ≡ false
      → ltb (length w.room.broadcast.queue) w.room.broadcast.capacity ≡ true
      → enqueue_broadcast m w ≡ done (tt, enqueued m w)
  unfolding enqueue_broadcast send
  enqueue_open m w h s = ground (arith, h, s)

  pub post_lem :
      (p : ℕ) (temp_id type : Bytes) (payload : Payload) (w : World)
      → CanPost w p
      → IsPosted w p temp_id type payload (
          confirm_and_broadcast rt p temp_id
            (some (built rt js w type w.room.code (w.store p).user payload))
            (later rt js w))
  unfolding confirm_and_broadcast
  post_lem p temp_id type payload w c =
      let m = built rt js w type w.room.code (w.store p).user payload in
      let u = later rt js w in
      let v = confirmed rt js u p temp_id m in
      let same = confirmed-room rt js u p temp_id m in
      let e = send_confirmation_open rt js p temp_id m u c.opening in
      let f =
        enqueue_open m v (ap (λ r. r.broadcast.closed) same ∙ c.speaking)
          (ap (λ r. ltb (length r.broadcast.queue) r.broadcast.capacity) same ∙ c.space) in
      (
        enqueued m v,
        ground (arith, e, f),
        ap (λ r. r.broadcast.queue ++ m ∷ []) same,
        ap (λ r. r.clients) same,
        confirmed-queue rt js u p temp_id m,
        confirmed-Spares rt js u p temp_id m,
      )

  pub answer_lem :
      (p : ℕ) (e : GoError) (w : World) → IsOpen w p → IsAnswered w p e (send_error rt p e w)
  answer_lem p e w h =
      let b = error_bytes rt js e w in
      let u = later rt js w in
      (
        deposit p b u,
        send_error_lem rt js p e w h,
        ground (arith, deposit-store p b u p),
        deposit-room p b u,
        deposit-Spares p b u,
      )
