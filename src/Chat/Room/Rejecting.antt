-- ===== src/Chat/Room/Rejecting.antt =====
-- What becomes of a connection that handleRegister rejects.
use hzchat_server.Common.{
  ℕ, ◌≤◌, ◌≡◌, refl, sym, ap, ◌∙◌, ◌++◌, true, false, [], ◌∷◌, none, some, arith, ltb, length,
}
use hzchat_server.Text.{Bytes, bytes, lookup}
use hzchat_server.Chat.Channel.{poll_or_close}
use hzchat_server.Chat.Message.{text, type_text}
use hzchat_server.Chat.World.{World, Client, Runtime, done, update}
use hzchat_server.Chat.Keeps.{
  Marshals, IsOpen, Spares, Spares-update, deposit-Spares, has_space, deposit, deposit-store,
  deposit-room,
}
use hzchat_server.Chat.Client.Sending.{plain, close_send}
use hzchat_server.Chat.Client.Inbound.{handle_text}
use hzchat_server.Chat.Client.Effects.{error_bytes, later, send_error_lem}
use hzchat_server.Chat.Client.Posting.{CanPost, IsPosted, handle_text_lem}
use hzchat_server.Chat.Room.Handlers.{
  handle_register, kick_existing, set_timer, reject_client, at_capacity,
}
use hzchat_server.Chat.Room.Invariant.{IsValid}
use hzchat_server.Chat.Room.Registering.{IsFresh}

-- After a rejection: the room is as it was but for its timer, and so is the client, with its channel,
-- its connection and what was written to it, and so is every other client; and the channel is open.
abbrev pub IsLeftOpen : World → ℕ → World → Type 0
IsLeftOpen w p w' =
    (w'.room ≡ record w.room { timer_running = false })
    × (w'.store p ≡ w.store p)
    × IsOpen w' p
    × Spares p w w'

store_self : (store : ℕ → Client) (p : ℕ) (c : Client) → update store p c p ≡ c
unfolding update
store_self store p c = ground arith

module _ (rt : Runtime) (js : Marshals rt) where
  -- The error that was queued just before is what the select takes from the channel.
  close_send_one :
      (p : ℕ) (b : Bytes) (w : World)
      → (w.store p).send.queue ≡ b ∷ []
      → close_send p w
        ≡ done (
          tt,
          record w {
            store =
                update w.store p
                  (record (w.store p) { send = record (w.store p).send { queue = [] } });
          },
        )
  unfolding close_send poll_or_close
  close_send_one p b w h = rw h refl

  reject_fresh :
      (p : ℕ) (w : World)
      → IsOpen w p
      → has_space w p ≡ true
      → (w.store p).send.queue ≡ []
      → (w' : World) × (reject_client rt p w ≡ done (tt, w'))
        × (w'.room ≡ w.room)
        × (w'.store p ≡ w.store p)
        × IsOpen w' p
        × Spares p w w'
  unfolding reject_client update
  reject_fresh p w opening space empty =
      let b = error_bytes rt js (plain (bytes "room is full")) w in
      let v = deposit p b (later rt js w) in
      let e = send_error_lem rt js p (plain (bytes "room is full")) w opening in
      let stored = deposit-store p b (later rt js w) p in
      let queued : (v.store p).send.queue ≡ b ∷ [] = ground (arith, stored, space, empty) in
      let f = close_send_one p b v queued in
      let grown : v.store p ≡ record (w.store p) {
        send = record (w.store p).send { queue = (w.store p).send.queue ++ b ∷ [] };
      } =
        ground (arith, stored, space) in
      let emptied = record (v.store p) { send = record (v.store p).send { queue = [] } } in
      (
        record v {
          store =
              update v.store p
                (record (v.store p) { send = record (v.store p).send { queue = [] } });
        },
        ground (arith, e, f),
        deposit-room p b (later rt js w),
        store_self v.store p emptied
            ∙ ap {A = Client} {B = Client} (λ c. record c { send = record c.send { queue = [] } })
                grown
            ∙ ap {B = Client}
                (λ q. record (w.store p) { send = record (w.store p).send { queue = q } })
                (sym empty),
        ground (arith, stored),
        λ q h. Spares-update v p emptied q h ∙ deposit-Spares p b (later rt js w) q h,
      )

  register_full :
      (w : World) (p : ℕ)
      → IsFresh w p
      → (w.store p).send.queue ≡ []
      → lookup (w.store p).user.id w.room.clients ≡ none
      → at_capacity w.room ≡ true
      → (w' : World) × (handle_register rt p w ≡ done (tt, w')) × IsLeftOpen w p w'
  unfolding handle_register set_timer kick_existing
  register_full w p fresh empty new full =
      let u : World = record w { room = record w.room { timer_running = false } } in
      let (w', e, same, stored, opens, spare) = reject_fresh p u fresh.opening fresh.space empty in
      (w', ground (arith, e, new, full), (same, stored, opens, spare))

  -- A full room rejects a new user, whose queue is empty until the rejection is over, only in part: the
  -- user is not listed, but the error message is taken back from its queue in place of closing the
  -- channel, so that the client is left exactly as it was: its channel open and empty, nothing written
  -- to its connection, and the connection not closed. A text of at most 5000 bytes that it sends then
  -- is posted to the room that rejected it, if the broadcast channel has space.
  pub rejected-posts :
      (w : World) (p : ℕ) (payload_bytes temp_id content : Bytes)
      → IsValid w
      → IsFresh w p
      → (w.store p).send.queue ≡ []
      → lookup (w.store p).user.id w.room.clients ≡ none
      → at_capacity w.room ≡ true
      → ltb (length w.room.broadcast.queue) w.room.broadcast.capacity ≡ true
      → rt.unmarshal_text payload_bytes ≡ some content
      → length content ≤ 5000
      → (w' : World) × (handle_register rt p w ≡ done (tt, w'))
        × IsLeftOpen w p w'
        × IsPosted rt js w' p temp_id type_text
            (text content)
            (handle_text rt p payload_bytes temp_id w')
  rejected-posts w p payload_bytes temp_id content valid fresh empty new full space decodes short =
      let (w', e, left) = register_full w p fresh empty new full in
      let (same, _, opening, _) = left in
      let can : CanPost w' p = record {
        opening = opening;
        speaking = ap (λ r. r.broadcast.closed) same ∙ valid.broadcasting;
        space = ap (λ r. ltb (length r.broadcast.queue) r.broadcast.capacity) same ∙ space;
      } in
      (w', e, left, (handle_text_lem rt js p payload_bytes temp_id content w' decodes can).1 short)
