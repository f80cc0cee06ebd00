-- ===== src/Chat/Client/Effects.antt =====
-- What the sending operations of client.go do to the state, where the JSON encoding works and the
-- client's channel is open: they return, and keep all but queues and frames.
use hzchat_server.Common.{
  ℕ, suc, ◌≡◌, refl, ◌∙◌, Bool, true, false, [], ◌∷◌, ◌++◌, none, some, arith, if◌then◌else◌, not,
  ◌&&◌, Bool-cases, inl, inr,
}
use hzchat_server.Text.{Bytes, bytes_eq}
use hzchat_server.Chat.Message.{
  User, Payload, Message, InitDataPayload, system_user, init_data, type_init_data, error,
  type_error, confirm, type_confirm,
}
use hzchat_server.Chat.World.{World, Client, Runtime, done, update, Frame, close_frame}
use hzchat_server.Chat.Client.Sending.{
  new_message, send_message, send_error, send_init_data, kick, write_frame, GoError, unix_milli,
  send_confirmation, ws_close_code_session_kicked, error_code, error_message,
}
use hzchat_server.Chat.Keeps.{
  Marshals, Keeps, Keeps-refl, Keeps-trans, Keeps-none, Keeps-counters, Keeps-update, deposit,
  Spares, Spares-update, deposit-room, deposit-Spares, deposit-store, deposit-Keeps, has_space,
  IsOpen, queue_bytes_open, close_send-Keeps,
}

module _ (rt : Runtime) (js : Marshals rt) where
  -- The message that NewMessage builds in a state.
  abbrev pub built : World → Bytes → Bytes → User → Payload → Message
  built w type room_code sender payload = record {
    id = rt.new_uuid w.ids_drawn;
    type = type;
    room_code = room_code;
    sender = sender;
    payload = js.payload_json payload;
    timestamp = unix_milli (rt.now w.clock_reads);
    temp_id = [];
  }

  abbrev pub later : World → World
  later w = record w { clock_reads = suc w.clock_reads; ids_drawn = suc w.ids_drawn }

  pub new_message_lem :
      (type room_code : Bytes) (sender : User) (payload : Payload) (w : World)
      → new_message rt type room_code sender payload w
        ≡ done (some (built w type room_code sender payload), later w)
  unfolding new_message
  new_message_lem type room_code sender payload w = rw (js.marshal_payload_eq payload)

  pub send_message_open :
      (p : ℕ) (m : Message) (w : World)
      → IsOpen w p
      → send_message rt p m w ≡ done (has_space w p, deposit p (js.message_json m) w)
  unfolding send_message
  send_message_open p m w h =
      rw (js.marshal_message_eq m) (queue_bytes_open p (js.message_json m) w h)

  -- What SendError queues.
  abbrev pub error_bytes : GoError → World → Bytes
  error_bytes e w =
      js.message_json
        (built w type_error w.room.code system_user (error (error_code rt e) (error_message rt e)))

  pub send_error_lem :
      (p : ℕ) (e : GoError) (w : World)
      → IsOpen w p
      → send_error rt p e w ≡ done (tt, deposit p (error_bytes e w) (later w))
  unfolding send_error
  send_error_lem p e w h =
      let x = error (error_code rt e) (error_message rt e) in
      let m = built w type_error w.room.code system_user x in
      ground (
        arith,
        new_message_lem type_error w.room.code system_user x w,
        send_message_open p m (later w) h,
      )

  pub send_error_open :
      (p : ℕ) (e : GoError) (w : World)
      → IsOpen w p
      → (w' : World) × (send_error rt p e w ≡ done (tt, w'))
        × Keeps none w w'
        × (w'.room ≡ w.room)
        × Spares p w w'
  send_error_open p e w h = (
    deposit p (error_bytes e w) (later w),
    send_error_lem p e w h,
    Keeps-trans (Keeps-counters none w _ _) (deposit-Keeps p _ (later w)),
    deposit-room p _ (later w),
    deposit-Spares p _ (later w),
  )

  pub send_init_data_open :
      (p : ℕ) (payload : InitDataPayload) (w : World)
      → IsOpen w p
      → (w' : World) × (send_init_data rt p payload w ≡ done (has_space w p, w')) × Keeps none w w'
  unfolding send_init_data
  send_init_data_open p payload w h =
      let x = init_data payload in
      let m = built w type_init_data w.room.code system_user x in
      (
        deposit p (js.message_json m) (later w),
        ground (
          arith,
          new_message_lem type_init_data w.room.code system_user x w,
          send_message_open p m (later w) h,
        ),
        Keeps-trans (Keeps-counters none w _ _) (deposit-Keeps p _ (later w)),
      )

  write_frame-Keeps :
      (p : ℕ) (f : Frame) (w : World)
      → (b : Bool) × (w' : World) × (write_frame rt p f w ≡ done (b, w'))
        × Keeps none w w'
        × Spares p w w'
  unfolding write_frame
  write_frame-Keeps p f w = elim (Bool-cases (rt.write_message p (w.store p) f)) [
    | inl ok ↦
        let c : Client = record (w.store p) { written = (w.store p).written ++ f ∷ [] } in
        (
          true,
          record w { store = update w.store p c },
          rw (ok, write_frame) refl,
          Keeps-update w p c refl refl,
          Spares-update w p c,
        )
    | inr bad ↦ (false, w, rw (bad, write_frame) refl, Keeps-refl none w, λ q h. refl)
  ]

  -- Kick returns in every state, and at most closes the channel of the client that it is called for.
  pub kick-Keeps :
      (p : ℕ) (reason : Bytes) (w : World)
      → (w' : World) × (kick rt p reason w ≡ done (tt, w')) × Keeps (some p) w w' × Spares p w w'
  kick-Keeps p reason w =
      let frame = close_frame (rt.format_close_message ws_close_code_session_kicked reason) in
      let (b, v, e, k, s) = write_frame-Keeps p frame w in
      let (w', e', k', s') = close_send-Keeps p v in
      (
        w',
        unfold kick in ground (arith, e, e'),
        Keeps-trans (Keeps-none k) k',
        λ q h. s' q h ∙ s q h,
      )

  -- The acknowledgement of a message.
  abbrev pub ack : World → ℕ → Bytes → Message → Message
  ack w p temp_id m =
      built w type_confirm w.room.code (w.store p).user (confirm temp_id m.id m.timestamp)

  -- What sendConfirmation leaves: nothing without a temporary id, else the acknowledgement.
  abbrev pub confirmed : World → ℕ → Bytes → Message → World
  confirmed w p temp_id m =
      if bytes_eq temp_id [] then w else deposit p (js.message_json (ack w p temp_id m)) (later w)

  pub send_confirmation_open :
      (p : ℕ) (temp_id : Bytes) (m : Message) (w : World)
      → IsOpen w p
      → send_confirmation rt p temp_id m w ≡ done (tt, confirmed w p temp_id m)
  unfolding send_confirmation
  send_confirmation_open p temp_id m w h =
      let x = confirm temp_id m.id m.timestamp in
      ground (
        arith,
        new_message_lem type_confirm w.room.code (w.store p).user x w,
        send_message_open p (ack w p temp_id m) (later w) h,
      )

  pub confirmed-room :
      (w : World) (p : ℕ) (temp_id : Bytes) (m : Message) → (confirmed w p temp_id m).room ≡ w.room
  confirmed-room w p temp_id m =
      ground (arith, deposit-room p (js.message_json (ack w p temp_id m)) (later w))

  pub confirmed-Spares :
      (w : World) (p : ℕ) (temp_id : Bytes) (m : Message) → Spares p w (confirmed w p temp_id m)
  confirmed-Spares w p temp_id m q h =
      ground (arith, deposit-Spares p (js.message_json (ack w p temp_id m)) (later w) q h)

  -- The queue of the client that is answered.
  pub confirmed-queue :
      (w : World) (p : ℕ) (temp_id : Bytes) (m : Message)
      → ((confirmed w p temp_id m).store p).send.queue ≡ (
          if not (bytes_eq temp_id []) && has_space w p
          then (w.store p).send.queue ++ js.message_json (ack w p temp_id m) ∷ []
          else (w.store p).send.queue)
  confirmed-queue w p temp_id m =
      ground (arith, deposit-store p (js.message_json (ack w p temp_id m)) (later w) p)
