-- ===== src/Chat/Frames/Pump.antt =====
-- The frame conditions of one round of WritePump of client.go.
use hzchat_server.Common.{
  ℕ, ◌+◌, ◌≡◌, refl, Bool, true, false, List, [], ◌∷◌, ◌++◌, Option, none, some, arith, ltb,
  Bool-cases, inl, inr,
}
use hzchat_server.Text.{Bytes}
use hzchat_server.Jwt.{generate_token, room_access_expiration}
use hzchat_server.Chat.Channel.{receive, receive_from}
use hzchat_server.Chat.World.{
  World, Runtime, update, done, ◌>>◌, skip, return, Frame, modify_client, close_frame, ping_frame,
  read_clock,
}
use hzchat_server.Chat.Client.Sending.{
  write_frame, send_token_update_message, send_if_built, new_message,
}
use hzchat_server.Chat.Client.Pumps.{
  PumpEvent, from_send, tick, write_pump_step, pump_received, write_queued_message, write_received,
  write_ping_message, check_and_refresh_token, use_new_token, token_refresh_window,
  refreshed_payload,
}
use hzchat_server.Chat.Keeps.{Keeps, Keeps-trans, Keeps-counters, Keeps-update}
use hzchat_server.Chat.Frames.{
  Frames, Frames-bind, Frames-done, Frames-read, Frames-modify, Frames-if, new_message-Frames,
  send_if_built-Frames,
}

module _ (rt : Runtime) where
  write_frame-Frames : (p : ℕ) (f : Frame) → Frames (write_frame rt p f)
  unfolding write_frame
  write_frame-Frames p f w =
      Frames-if (rt.write_message p (w.store p) f)
        (modify_client p (λ d. record d { written = d.written ++ f ∷ [] }) >> return true)
        (return false)
        (Frames-bind (modify_client p (λ d. record d { written = d.written ++ f ∷ [] }))
          (λ _. return true)
          (Frames-modify p (λ d. record d { written = d.written ++ f ∷ [] }) (λ c. refl)
            (λ c. refl))
          (λ _. Frames-read (λ w. true)))
        (Frames-read (λ w. false)) w

  write_queued_message-Frames :
      (p : ℕ) (message : Option Bytes) → Frames (write_queued_message rt p message)
  unfolding write_queued_message
  write_queued_message-Frames p message w =
      Frames-if _ (return false) (write_received rt p message) (Frames-read (λ w. false))
        (received message) w
    where
      received : (o : Option Bytes) → Frames (write_received rt p o)
      received none =
          Frames-bind (write_frame rt p (close_frame [])) (λ _. return false)
            (write_frame-Frames p _) (λ _. Frames-read (λ w. false))
      received (some b) = write_frame-Frames p _

  write_ping_message-Frames : (p : ℕ) → Frames (write_ping_message rt p)
  unfolding write_ping_message
  write_ping_message-Frames p w =
      Frames-if _ (return false) (write_frame rt p ping_frame) (Frames-read (λ w. false))
        (write_frame-Frames p _) w

  read_clock-Frames : Frames (read_clock rt)
  read_clock-Frames = Frames-done _ _ (λ w. Keeps-counters none w _ _)

  send_token_update-Frames : (p : ℕ) (token : Bytes) → Frames (send_token_update_message rt p token)
  unfolding send_token_update_message
  send_token_update-Frames p token w =
      Frames-bind (new_message rt _ w.room.code _ _) (send_if_built rt p)
        (new_message-Frames rt _ _ _ _) (send_if_built-Frames rt p) w

  use_new_token-Frames : (p : ℕ) (o : Option Bytes) → Frames (use_new_token rt p o)
  unfolding use_new_token
  use_new_token-Frames p none = Frames-read (λ w. tt)
  use_new_token-Frames p (some token) = Frames-bind (read_clock rt) _ read_clock-Frames (λ later.
      Frames-bind (send_token_update_message rt p token) _ (send_token_update-Frames p token)
        (λ queued.
          Frames-if queued
            (modify_client p (λ c. record c { token_expiry = later + room_access_expiration })) skip
            (Frames-modify p (λ c. record c { token_expiry = later + room_access_expiration })
              (λ c. refl) (λ c. refl))
            (Frames-read (λ w. tt))))

  check_and_refresh_token-Frames : (p : ℕ) → Frames (check_and_refresh_token rt p)
  unfolding check_and_refresh_token
  check_and_refresh_token-Frames p = Frames-bind (read_clock rt) _ read_clock-Frames (λ now w.
      Frames-if (ltb (w.store p).token_expiry (now + token_refresh_window)) _ skip
        (λ v.
          Frames-bind (read_clock rt) _ read_clock-Frames
            (λ issued.
              use_new_token-Frames p
                (generate_token rt.sign issued (refreshed_payload rt (w.store p) v.room.code)
                  v.room.jwt_secret room_access_expiration).1)
            v)
        (Frames-read (λ w. tt)) w)

  -- Whatever its select takes, a round of WritePump that returns keeps the room's members and every
  -- channel as open or closed as it was.
  pub write_pump_step-Frames : (p : ℕ) (event : PumpEvent) → Frames (write_pump_step rt p event)
  unfolding write_pump_step receive receive_from pump_received
  write_pump_step-Frames p from_send = λ w. taken w (w.store p).send.queue
    where
      taken :
          (w : World) (queue : List Bytes) (w' : World) (a : Bool)
          → pump_received rt p (receive_from (w.store p).send queue) w ≡ done (a, w')
          → Keeps none w w'
      taken w [] w' a h = elim (Bool-cases (w.store p).send.closed) [
        | inl e ↦ write_queued_message-Frames p none w w' a (ground arith)
        | inr e ↦ ground arith
      ]
      taken w (b ∷ rest) w' a h =
          let v : World = record w {
            store =
                update w.store p
                  (record (w.store p) { send = record (w.store p).send { queue = rest } });
          } in
          Keeps-trans (Keeps-update w p _ refl refl)
            (write_queued_message-Frames p (some b) v w' a h)
  write_pump_step-Frames p tick =
      Frames-bind (write_ping_message rt p) _ (write_ping_message-Frames p) (λ alive.
        Frames-if alive _ (return false)
          (Frames-bind (check_and_refresh_token rt p) (λ _. return true)
            (check_and_refresh_token-Frames p) (λ _. Frames-read (λ w. true)))
          (Frames-read (λ w. false)))
