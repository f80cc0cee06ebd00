-- ===== src/Chat/Client/Pumping/Frames.antt =====
-- What WritePump should write over a list of events, and on which conditions.
use hzchat_server.Common.{
  ℕ, suc, ◌+◌, ◌≤◌, ◌<◌, leb, if◌then◌else◌, ◌≡◌, Bool, true, List, [], ◌∷◌, ◌++◌, length,
}
use hzchat_server.Text.{Bytes}
use hzchat_server.Chat.World.{
  World, Client, Runtime, Outcome, done, Frame, text_frame, close_frame, ping_frame,
}
use hzchat_server.Chat.Client.Pumps.{PumpEvent, from_send, tick, token_refresh_window}

-- A connection on which every deadline is set and every write succeeds.
pub record Works (rt : Runtime) (p : ℕ) : Type 0 where
  pub deadline_set : (c : Client) → rt.set_write_deadline p c ≡ true
  pub frame_written : (c : Client) (f : Frame) → rt.write_message p c f ≡ true

-- How often the select takes the send channel, and how often the ticker.
abbrev pub sends : List PumpEvent → ℕ
sends [] = 0
sends (from_send ∷ events) = suc (sends events)
sends (tick ∷ events) = sends events

abbrev pub ticks : List PumpEvent → ℕ
ticks [] = 0
ticks (from_send ∷ events) = ticks events
ticks (tick ∷ events) = suc (ticks events)

-- The frames of these events, where this is queued on a closed channel: a ping for each tick, each
-- message in its order, and at last an empty close frame.
abbrev pub frames_of : List PumpEvent → List Bytes → List Frame
frames_of [] queue = []
frames_of (tick ∷ events) queue = ping_frame ∷ frames_of events queue
frames_of (from_send ∷ events) [] = close_frame [] ∷ []
frames_of (from_send ∷ events) (b ∷ rest) = text_frame b ∷ frames_of events rest

-- At each of the next k readings of the clock, no new token is due.
abbrev pub IsSpared : Runtime → ℕ → ℕ → World → Type 0
IsSpared rt p k w =
    (n : ℕ)
    → w.clock_reads ≤ n
    → n < w.clock_reads + k
    → rt.now n + token_refresh_window ≤ (w.store p).token_expiry

-- What the pump leaves: it goes on as long as it has not found the queue empty, and else has closed the
-- connection.
abbrev pub Drained : ℕ → List PumpEvent → World → Outcome (Bool × World) → Type 0
Drained p events w o =
    let queue = (w.store p).send.queue in
    let running = leb (sends events) (length queue) in
    (w' : World) × (o ≡ done (running, w'))
    × ((w'.store p).written ≡ (w.store p).written ++ frames_of events queue)
    × ((w'.store p).conn_closed ≡ (if running then (w.store p).conn_closed else true))
