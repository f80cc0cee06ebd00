-- ===== src/Chat/Client/Pumping.antt =====
-- What WritePump of client.go writes to the connection.
mod Frames
pub use Frames.*
use hzchat_server.Common.{
  ℕ, suc, ◌+◌, ◌≤◌, ◌<◌, leb, if◌then◌else◌, ◌≡◌, refl, sym, ap, ◌∙◌, Bool, true, false, List, [],
  ◌∷◌, ◌++◌, arith, length,
}
use mathlib.Core.List.{append_assoc, append-nil}
use hzchat_server.Text.{Bytes}
use hzchat_server.Chat.Channel.{Channel, receive, receive_from}
use hzchat_server.Chat.World.{
  World, Client, Runtime, Outcome, done, Frame, text_frame, close_frame, ping_frame, update,
}
use hzchat_server.Chat.Client.Sending.{write_frame}
use hzchat_server.Chat.Client.Pumps.{
  PumpEvent, from_send, tick, token_refresh_window, write_ping_message, check_and_refresh_token,
  write_pump, write_pump_step, pump_received, write_queued_message,
}

update_self : (store : ℕ → Client) (p : ℕ) (c : Client) → update store p c p ≡ c
unfolding update
update_self store p c = ground arith

module _ (rt : Runtime) (p : ℕ) (works : Works rt p) where
  frames_after : (f : Frame) (w : World) → World
  frames_after f w = record w {
    store = update w.store p (record (w.store p) { written = (w.store p).written ++ f ∷ [] });
  }

  write_frame_works : (f : Frame) (w : World) → write_frame rt p f w ≡ done (true, frames_after f w)
  unfolding write_frame frames_after
  write_frame_works f w = ground (arith, works.frame_written (w.store p) f)

  frames_after-client :
      (f : Frame) (w : World)
      → (frames_after f w).store p ≡ record (w.store p) { written = (w.store p).written ++ f ∷ [] }
  unfolding frames_after
  frames_after-client f w = update_self w.store p _

  -- What a round that goes on changes.
  abbrev Wrote : List Bytes → Frame → ℕ → World → World → Type 0
  Wrote queue f reads w w' =
      (w'.store p ≡ record (w.store p) {
        send = record (w.store p).send { queue = queue };
        written = (w.store p).written ++ f ∷ [];
      })
      × (w'.clock_reads ≡ reads)

  -- One queued message is written as one frame.
  step_item :
      (b : Bytes) (rest : List Bytes) (w : World)
      → (w.store p).send.queue ≡ b ∷ rest
      → (w' : World) × (write_pump_step rt p from_send w ≡ done (true, w'))
        × Wrote rest (text_frame b) w.clock_reads w w'
  unfolding write_pump_step pump_received write_queued_message receive receive_from frames_after
  step_item b rest w h =
      let ch : Channel Bytes = record (w.store p).send { queue = rest } in
      let u : World = record w { store = update w.store p (record (w.store p) { send = ch }) } in
      let here = update_self w.store p (record (w.store p) { send = ch }) in
      (
        frames_after (text_frame b) u,
        rw (h, receive_from)
            (ground (arith, works.deadline_set (u.store p), write_frame_works (text_frame b) u)),
        (
          frames_after-client (text_frame b) u
              ∙ ap {A = Client} {B = Client}
                  (λ c. record c { written = c.written ++ text_frame b ∷ [] }) here,
          refl,
        ),
      )

  -- A tick that finds the token good for longer writes a ping.
  step_tick :
      (w : World)
      → rt.now w.clock_reads + token_refresh_window ≤ (w.store p).token_expiry
      → (w' : World) × (write_pump_step rt p tick w ≡ done (true, w'))
        × Wrote (w.store p).send.queue ping_frame (suc w.clock_reads) w w'
  unfolding write_pump_step write_ping_message check_and_refresh_token frames_after
  step_tick w spared =
      let u = frames_after ping_frame w in
      let here = frames_after-client ping_frame w in
      let expiry = ap (λ c. c.token_expiry) here in
      (
        record u { clock_reads = suc w.clock_reads },
        ground
            (arith, works.deadline_set (w.store p), write_frame_works ping_frame w, expiry, spared),
        (here, refl),
      )

  -- A closed and empty channel is answered with an empty close frame, and ends the loop.
  step_finished :
      (w : World)
      → (w.store p).send.queue ≡ []
      → (w.store p).send.closed ≡ true
      → write_pump_step rt p from_send w ≡ done (false, frames_after (close_frame []) w)
  unfolding write_pump_step pump_received write_queued_message receive receive_from
  step_finished w h c =
      rw (h, receive_from)
        (ground (arith, c, works.deadline_set (w.store p), write_frame_works (close_frame []) w))

  -- The same with the queue as an argument.
  abbrev DrainedFrom : List PumpEvent → List Bytes → World → Outcome (Bool × World) → Type 0
  DrainedFrom events queue w o =
      let running = leb (sends events) (length queue) in
      (w' : World) × (o ≡ done (running, w'))
      × ((w'.store p).written ≡ (w.store p).written ++ frames_of events queue)
      × ((w'.store p).conn_closed ≡ (if running then (w.store p).conn_closed else true))

  -- A round that goes on, and then the rest.
  drain_step :
      (event : PumpEvent) (events : List PumpEvent) (queue : List Bytes) (f : Frame) (reads : ℕ)
      (running : Bool) (w u : World)
      → leb (sends events) (length queue) ≡ running
      → write_pump_step rt p event w ≡ done (true, u)
      → Wrote queue f reads w u
      → DrainedFrom events queue u (write_pump rt p events u)
      → (w' : World) × (write_pump rt p (event ∷ events) w ≡ done (running, w'))
        × ((w'.store p).written ≡ (w.store p).written ++ f ∷ frames_of events queue)
        × ((w'.store p).conn_closed ≡ (if running then (w.store p).conn_closed else true))
  unfolding write_pump
  drain_step event events queue f reads running w u same e (stored, _) (w', g, frames, closed) = (
    w',
    ground (arith, e, g, same),
    frames
        ∙ ap (λ c. c.written ++ frames_of events queue) stored
        ∙ append_assoc (w.store p).written (f ∷ []) _,
    closed
        ∙ ap (λ r. if r then (u.store p).conn_closed else true) same
        ∙ ap (λ c. if running then c.conn_closed else true) stored,
  )

  IsSpared-behind :
      (k : ℕ) (queue : List Bytes) (f : Frame) (w u : World)
      → IsSpared rt p (suc k) w
      → Wrote queue f (suc w.clock_reads) w u
      → IsSpared rt p k u
  IsSpared-behind k queue f w u spared (stored, reads) n low high =
      let same = ap (λ c. c.token_expiry) stored in
      let there = spared n (omega (arith, reads)) (omega (arith, reads)) in
      omega (arith, same, there)

  IsSpared-beside :
      (k : ℕ) (queue : List Bytes) (f : Frame) (w u : World)
      → IsSpared rt p k w
      → Wrote queue f w.clock_reads w u
      → IsSpared rt p k u
  IsSpared-beside k queue f w u spared (stored, reads) n low high =
      let same = ap (λ c. c.token_expiry) stored in
      let there = spared n (omega (arith, reads)) (omega (arith, reads)) in
      omega (arith, same, there)

  drain_from :
      (events : List PumpEvent) (queue : List Bytes) (w : World)
      → (w.store p).send.queue ≡ queue
      → (w.store p).send.closed ≡ true
      → IsSpared rt p (ticks events) w
      → DrainedFrom events queue w (write_pump rt p events w)
  unfolding write_pump
  drain_from [] queue w h c spared = (w, ground arith, sym (append-nil _), ground arith)
  drain_from (from_send ∷ events) [] w h c spared =
      let u = frames_after (close_frame []) w in
      let here = update_self u.store p (record (u.store p) { conn_closed = true }) in
      let ended : true ≡ (if leb (suc (sends events)) 0 then (w.store p).conn_closed else true) =
        ground arith in
      (
        record u { store = update u.store p (record (u.store p) { conn_closed = true }) },
        ground (arith, step_finished w h c),
        ap (λ d. d.written) here ∙ ap (λ d. d.written) (frames_after-client (close_frame []) w),
        ap (λ d. d.conn_closed) here ∙ ended,
      )
  drain_from (from_send ∷ events) (b ∷ rest) w h c spared =
      let (u, e, wrote) = step_item b rest w h in
      drain_step from_send events rest (text_frame b) w.clock_reads
        (leb (suc (sends events)) (suc (length rest))) w u (ground arith) e wrote
        (drain_from events rest u (ap (λ d. d.send.queue) wrote.0)
          (ap (λ d. d.send.closed) wrote.0 ∙ c)
          (IsSpared-beside (ticks events) rest (text_frame b) w u spared wrote))
  drain_from (tick ∷ events) queue w h c spared =
      let (u, e, (stored, reads)) =
        step_tick w (spared w.clock_reads (omega arith) (omega arith)) in
      let wrote : Wrote queue ping_frame (suc w.clock_reads) w u = (
        stored
            ∙ ap {B = Client}
                (λ q. record (w.store p) {
                  send = record (w.store p).send { queue = q };
                  written = (w.store p).written ++ ping_frame ∷ [];
                })
                h,
        reads,
      ) in
      drain_step tick events queue ping_frame (suc w.clock_reads)
        (leb (sends events) (length queue)) w u refl e wrote
        (drain_from events queue u (ap (λ d. d.send.queue) wrote.0)
          (ap (λ d. d.send.closed) stored ∙ c)
          (IsSpared-behind (ticks events) queue ping_frame w u spared wrote))

-- A client whose channel was closed is still sent all that is queued, on a connection that works and
-- where no new token is due at any tick: over any events of its select, WritePump writes a ping for
-- each tick and each queued message as one frame, in their order. It ends at the first time that it
-- finds the queue empty, so once the send channel was taken more often than there are messages, and
-- then it has written an empty close frame and closed the connection; till then it goes on.
pub write_pump-drains :
    (rt : Runtime) (p : ℕ) (events : List PumpEvent) (w : World)
    → Works rt p
    → (w.store p).send.closed ≡ true
    → IsSpared rt p (ticks events) w
    → Drained p events w (write_pump rt p events w)
write_pump-drains rt p events w works c spared =
    drain_from rt p works events (w.store p).send.queue w refl c spared
