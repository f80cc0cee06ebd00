-- ===== src/Chat/Frames.antt =====
-- The frame conditions of the calls of client.go, for every run of them that returns.
pub mod Pump
use hzchat_server.Common.{
  ℕ, suc, ◌+◌, ◌≡◌, ◌≢◌, refl, ap, ◌∙◌, Bool, true, false, List, [], ◌∷◌, ◌++◌, Option, none, some,
  arith, ltb, if◌then◌else◌, length, Bool-cases, inl, inr, not, ◌==◌, ◌||◌,
}
use hzchat_server.Text.{Bytes, bytes_eq}
use hzchat_server.Errs.{new_error, err_attachment_count_invalid, err_message_content_too_long}
use hzchat_server.Chat.Channel.{
  Channel, Sent, sent, full, panics, send, Received, item, finished, waits, receive, receive_from,
}
use hzchat_server.Chat.Message.{User, Payload, Message, Inbound, AttachmentsPayload}
use hzchat_server.Chat.World.{
  World, Client, Runtime, Outcome, done, panicked, exited, blocked, M, ◌>>=◌, ◌>>◌, update, skip,
  return, Frame, modify_client,
}
use hzchat_server.Chat.Client.Sending.{
  new_message, queue_bytes, queue_result, send_message, queue_marshalled, send_error, send_or_exit,
  send_confirmation, custom, send_token_update_message, send_if_built, write_frame, GoError,
}
use hzchat_server.Chat.Client.Inbound.{
  enqueue_broadcast, broadcast_result, confirm_and_broadcast, handle_text, handle_text_payload,
  handle_attachments, handle_attachments_payload, send_attachments, process_inbound_message,
  handle_inbound, Checked, accepted, refused, check_attachments, key_prefix, max_attachments_count,
  max_content_bytes,
}
use hzchat_server.Chat.Client.Pumps.{
  PumpEvent, from_send, tick, write_pump_step, pump_received, write_queued_message, write_received,
  write_ping_message, check_and_refresh_token, use_new_token,
}
use hzchat_server.Chat.Keeps.{
  Keeps, Keeps-refl, Keeps-trans, Keeps-counters, Keeps-update, Keeps-broadcast, queue_bytes_open,
  queue_bytes_closed, deposit, deposit-Keeps,
}

-- Whenever the call returns, the room's members, limit, timer and channels are as before.
abbrev pub Frames : {A : Type 0} → M A → Type 0
Frames {A} m = (w w' : World) (a : A) → m w ≡ done (a, w') → Keeps none w w'

bind_inv :
    {A B : Type 0} (f : A → M B) (o : Outcome (A × World)) (b : B) (w' : World)
    → (elim o [ done (a, v) ↦ f a v | panicked ↦ panicked | exited ↦ exited | blocked ↦ blocked ])
      ≡ done (b, w')
    → (a : A) × (v : World) × (o ≡ done (a, v)) × (f a v ≡ done (b, w'))
bind_inv f (done (a, v)) b w' h = (a, v, refl, h)
bind_inv f panicked b w' h = cc
bind_inv f exited b w' h = cc
bind_inv f blocked b w' h = cc

pub Frames-bind :
    {A B : Type 0} (m : M A) (f : A → M B) → Frames m → ((a : A) → Frames (f a)) → Frames (m >>= f)
Frames-bind m f k l w w' b h =
    let (a, v, e, g) = bind_inv f (m w) b w' h in Keeps-trans (k w v a e) (l a v w' b g)

done_world :
    {A : Type 0} (a b : A) (v w : World)
    → ◌≡◌ {A = Outcome (A × World)} (done (a, v)) (done (b, w))
    → v ≡ w
done_world a b v w h = cc

-- A call that only reads, or that changes the state by f.
pub Frames-done :
    {A : Type 0} (a : World → A) (f : World → World)
    → ((w : World) → Keeps none w (f w))
    → Frames (λ w. done (a w, f w))
Frames-done a f k w w' b h = rw (← done_world (a w) b (f w) w' h) (k w)

pub Frames-read : {A : Type 0} (a : World → A) → Frames (λ w. done (a w, w))
Frames-read a = Frames-done a (λ w. w) (Keeps-refl none)

pub Frames-modify :
    (p : ℕ) (f : Client → Client)
    → ((c : Client) → (f c).user ≡ c.user)
    → ((c : Client) → (f c).send.closed ≡ c.send.closed)
    → Frames (modify_client p f)
Frames-modify p f user closed =
    Frames-done (λ w. tt) (λ w. record w { store = update w.store p (f (w.store p)) })
      (λ w. Keeps-update w p (f (w.store p)) (user (w.store p)) (closed (w.store p)))

pub Frames-if :
    {A : Type 0} (b : Bool) (m n : M A) → Frames m → Frames n → Frames (if b then m else n)
Frames-if true m n k l = k
Frames-if false m n k l = l

queue_bytes-Frames : (p : ℕ) (b : Bytes) → Frames (queue_bytes p b)
queue_bytes-Frames p b w w' a h = elim (Bool-cases (w.store p).send.closed) [
  | inl e ↦ cc (queue_bytes_closed p b w e)
  | inr e ↦
      let law = queue_bytes_open p b w e in
      let same : deposit p b w ≡ w' = cc law in rw (← same) (deposit-Keeps p b w)
]

enqueue_broadcast-Frames : (m : Message) → Frames (enqueue_broadcast m)
unfolding enqueue_broadcast send
enqueue_broadcast-Frames m w w' a h =
    let ch : Channel Message = record w.room.broadcast {
      queue = w.room.broadcast.queue ++ m ∷ [];
    } in
    let e : record w { room = record w.room { broadcast = ch } } ≡ w' = ground arith in
    rw (← e) (Keeps-broadcast w ch refl)

module _ (rt : Runtime) where
  pub new_message-Frames :
      (type room_code : Bytes) (sender : User) (payload : Payload)
      → Frames (new_message rt type room_code sender payload)
  unfolding new_message
  new_message-Frames type room_code sender payload =
      Frames-done _ _ (λ w. Keeps-counters none w _ _)

  send_message-Frames : (p : ℕ) (m : Message) → Frames (send_message rt p m)
  unfolding send_message
  send_message-Frames p m = marshalled (rt.marshal_message m)
    where
      marshalled : (o : Option Bytes) → Frames (queue_marshalled rt p o)
      marshalled none = Frames-read (λ w. false)
      marshalled (some b) = queue_bytes-Frames p b

  pub send_if_built-Frames : (p : ℕ) (o : Option Message) → Frames (send_if_built rt p o)
  unfolding send_if_built
  send_if_built-Frames p none = Frames-read (λ w. false)
  send_if_built-Frames p (some m) = send_message-Frames p m

  send_or_exit-Frames : (p : ℕ) (o : Option Message) → Frames (send_or_exit rt p o)
  unfolding send_or_exit
  send_or_exit-Frames p none = λ w w' a h. cc
  send_or_exit-Frames p (some m) =
      Frames-bind (send_message rt p m) (λ _. skip) (send_message-Frames p m)
        (λ _. Frames-read (λ w. tt))

  pub send_error-Frames : (p : ℕ) (e : GoError) → Frames (send_error rt p e)
  unfolding send_error
  send_error-Frames p e w =
      Frames-bind (new_message rt _ w.room.code _ _) (send_or_exit rt p)
        (new_message-Frames _ _ _ _) (send_or_exit-Frames p) w

  send_confirmation-Frames :
      (p : ℕ) (temp_id : Bytes) (m : Message) → Frames (send_confirmation rt p temp_id m)
  unfolding send_confirmation
  send_confirmation-Frames p temp_id m =
      Frames-if (bytes_eq temp_id []) skip _ (Frames-read (λ w. tt)) (λ w.
        Frames-bind (new_message rt _ w.room.code (w.store p).user _) _ (new_message-Frames _ _ _ _)
          (λ o.
            Frames-bind (send_if_built rt p o) (λ _. skip) (send_if_built-Frames p o)
              (λ _. Frames-read (λ w. tt)))
          w)

  confirm_and_broadcast-Frames :
      (p : ℕ) (temp_id : Bytes) (o : Option Message) → Frames (confirm_and_broadcast rt p temp_id o)
  unfolding confirm_and_broadcast
  confirm_and_broadcast-Frames p temp_id none = Frames-read (λ w. tt)
  confirm_and_broadcast-Frames p temp_id (some m) =
      Frames-bind (send_confirmation rt p temp_id m) (λ _. enqueue_broadcast m)
        (send_confirmation-Frames p temp_id m) (λ _. enqueue_broadcast-Frames m)

  post-Frames :
      (p : ℕ) (temp_id type : Bytes) (payload : Payload) (w : World)
      → (w' : World) (a : Unit {0})
      → (new_message rt type w.room.code (w.store p).user payload
            >>= confirm_and_broadcast rt p temp_id)
          w
        ≡ done (a, w')
      → Keeps none w w'
  post-Frames p temp_id type payload w =
      Frames-bind (new_message rt type w.room.code (w.store p).user payload)
        (confirm_and_broadcast rt p temp_id) (new_message-Frames _ _ _ _)
        (confirm_and_broadcast-Frames p temp_id) w

  handle_text-Frames :
      (p : ℕ) (payload_bytes temp_id : Bytes) → Frames (handle_text rt p payload_bytes temp_id)
  unfolding handle_text
  handle_text-Frames p payload_bytes temp_id = decoded (rt.unmarshal_text payload_bytes)
    where
      decoded : (o : Option Bytes) → Frames (handle_text_payload rt p temp_id o)
      decoded none = Frames-read (λ w. tt)
      decoded (some content) =
          Frames-if _ (send_error rt p _) _ (send_error-Frames p _) (post-Frames p temp_id _ _)

  send_attachments-Frames :
      (p : ℕ) (temp_id description : Bytes) (c : Checked)
      → Frames (send_attachments rt p temp_id description c)
  unfolding send_attachments
  send_attachments-Frames p temp_id description (refused e) = send_error-Frames p _
  send_attachments-Frames p temp_id description (accepted cleared) = post-Frames p temp_id _ _

  handle_attachments-Frames :
      (p : ℕ) (payload_bytes temp_id : Bytes)
      → Frames (handle_attachments rt p payload_bytes temp_id)
  unfolding handle_attachments
  handle_attachments-Frames p payload_bytes temp_id =
      decoded (rt.unmarshal_attachments payload_bytes)
    where
      checked : AttachmentsPayload → M (Unit {0})
      checked given w =
          send_attachments rt p temp_id given.description
            (check_attachments rt.lower_table (key_prefix w.room.code) given.attachments) w

      decoded : (o : Option AttachmentsPayload) → Frames (handle_attachments_payload rt p temp_id o)
      decoded none = Frames-read (λ w. tt)
      decoded (some given) =
          Frames-if
            (length given.attachments == 0 || ltb max_attachments_count (length given.attachments))
            (send_error rt p (custom (new_error err_attachment_count_invalid)))
            (if ltb max_content_bytes (length given.description)
              then send_error rt p (custom (new_error err_message_content_too_long))
              else (checked given))
            (send_error-Frames p _)
            (Frames-if (ltb max_content_bytes (length given.description))
              (send_error rt p (custom (new_error err_message_content_too_long))) (checked given)
              (send_error-Frames p _)
              (λ w.
                send_attachments-Frames p temp_id given.description
                  (check_attachments rt.lower_table (key_prefix w.room.code) given.attachments) w))

  -- Whatever a client sends, a call of processInboundMessage that returns keeps the room's members and
  -- every channel as open or closed as it was.
  pub process_inbound_message-Frames :
      (p : ℕ) (message_bytes : Bytes) → Frames (process_inbound_message rt p message_bytes)
  unfolding process_inbound_message
  process_inbound_message-Frames p message_bytes = decoded (rt.unmarshal_inbound message_bytes)
    where
      decoded : (o : Option Inbound) → Frames (handle_inbound rt p o)
      decoded none = Frames-read (λ w. tt)
      decoded (some m) =
          Frames-if _ (handle_text rt p m.payload m.temp_id) _
            (handle_text-Frames p m.payload m.temp_id)
            (Frames-if _ (handle_attachments rt p m.payload m.temp_id) skip
              (handle_attachments-Frames p m.payload m.temp_id) (Frames-read (λ w. tt)))
