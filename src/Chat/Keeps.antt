-- ===== src/Chat/Keeps.antt =====
-- What an operation leaves alone: the frame conditions that the proofs about clients and rooms share,
-- and the documented behaviour of encoding/json that they rely on.
use hzchat_server.Common.{
  ℕ, ◌≡◌, ◌≢◌, refl, ◌∙◌, Bool, true, false, [], ◌∷◌, ◌++◌, Option, none, some, arith, ltb, ◌==◌,
  if◌then◌else◌, ◌&&◌, length, Bool-cases, inl, inr,
}
use hzchat_server.Text.{Bytes}
use hzchat_server.Chat.Channel.{Channel, send}
use hzchat_server.Chat.Message.{Payload, Message}
use hzchat_server.Chat.World.{World, Client, Runtime, done, panicked, update}
use hzchat_server.Chat.Client.Sending.{queue_bytes, close_send}
use hzchat_server.Chat.Room.Handlers.{offer_broadcast}

-- json.Marshal does not fail on the payload structs and on Message: they hold strings, numbers, lists
-- and raw JSON only.
pub record Marshals (rt : Runtime) : Type 0 where
  pub payload_json : Payload → Bytes
  pub message_json : Message → Bytes
  pub marshal_payload_eq : (x : Payload) → rt.marshal_payload x ≡ some (payload_json x)
  pub marshal_message_eq : (m : Message) → rt.marshal_message m ≡ some (message_json m)

-- Membership, limit, timer and the openness of all channels stay as they are, except that the send
-- channel of the client `except` may be closed; queues and the connections' frames may change.
pub record Keeps (except : Option ℕ) (w w' : World) : Type 0 where
  pub clients : w'.room.clients ≡ w.room.clients
  pub max_clients : w'.room.max_clients ≡ w.room.max_clients
  pub timer : w'.room.timer_running ≡ w.room.timer_running
  pub broadcasting : w'.room.broadcast.closed ≡ w.room.broadcast.closed
  pub registering : w'.room.register_closed ≡ w.room.register_closed
  pub accepting : w'.room.unregister_closed ≡ w.room.unregister_closed
  pub users : (p : ℕ) → (w'.store p).user ≡ (w.store p).user
  pub closings : (p : ℕ) → some p ≢ except → (w'.store p).send.closed ≡ (w.store p).send.closed

pub Keeps-refl : (e : Option ℕ) (w : World) → Keeps e w w
Keeps-refl e w = record {
  clients = refl;
  max_clients = refl;
  timer = refl;
  broadcasting = refl;
  registering = refl;
  accepting = refl;
  users = λ p. refl;
  closings = λ p h. refl;
}

pub Keeps-trans : {e : Option ℕ} {u v w : World} → Keeps e u v → Keeps e v w → Keeps e u w
Keeps-trans a b = record {
  clients = b.clients ∙ a.clients;
  max_clients = b.max_clients ∙ a.max_clients;
  timer = b.timer ∙ a.timer;
  broadcasting = b.broadcasting ∙ a.broadcasting;
  registering = b.registering ∙ a.registering;
  accepting = b.accepting ∙ a.accepting;
  users = λ p. b.users p ∙ a.users p;
  closings = λ p h. b.closings p h ∙ a.closings p h;
}

pub Keeps-none : {e : Option ℕ} {u v : World} → Keeps none u v → Keeps e u v
Keeps-none a = record {
  clients = a.clients;
  max_clients = a.max_clients;
  timer = a.timer;
  broadcasting = a.broadcasting;
  registering = a.registering;
  accepting = a.accepting;
  users = a.users;
  closings = λ p h. a.closings p (λ k. cc);
}

-- Two readings of the clock and the generator later.
pub Keeps-counters :
    (e : Option ℕ) (w : World) (n k : ℕ) → Keeps e w (record w { clock_reads = n; ids_drawn = k })
Keeps-counters e w n k = record {
  clients = refl;
  max_clients = refl;
  timer = refl;
  broadcasting = refl;
  registering = refl;
  accepting = refl;
  users = λ p. refl;
  closings = λ p h. refl;
}

-- A write to one client that keeps its user, and its channel open or closed as it was.
pub Keeps-update :
    (w : World) (p : ℕ) (c : Client)
    → c.user ≡ (w.store p).user
    → c.send.closed ≡ (w.store p).send.closed
    → Keeps none w (record w { store = update w.store p c })
unfolding update
Keeps-update w p c same opening = record {
  clients = refl;
  max_clients = refl;
  timer = refl;
  broadcasting = refl;
  registering = refl;
  accepting = refl;
  users = λ q. ground arith;
  closings = λ q h. ground arith;
}

-- The same where its channel may be closed.
pub Keeps-update-some :
    (w : World) (p : ℕ) (c : Client)
    → c.user ≡ (w.store p).user
    → Keeps (some p) w (record w { store = update w.store p c })
unfolding update
Keeps-update-some w p c same = record {
  clients = refl;
  max_clients = refl;
  timer = refl;
  broadcasting = refl;
  registering = refl;
  accepting = refl;
  users = λ q. ground arith;
  closings = λ q h. ground arith;
}

-- What a message queued for a client leaves: nothing if there is no space.
pub deposit : ℕ → Bytes → World → World
deposit p b w =
    if ltb (length (w.store p).send.queue) (w.store p).send.capacity
    then record w {
      store = update w.store p (record (w.store p) {
        send = record (w.store p).send { queue = (w.store p).send.queue ++ b ∷ [] };
      });
    }
    else w

abbrev pub has_space : World → ℕ → Bool
has_space w p = ltb (length (w.store p).send.queue) (w.store p).send.capacity

abbrev pub IsOpen : World → ℕ → Type 0
IsOpen w p = (w.store p).send.closed ≡ false

pub deposit-store :
    (p : ℕ) (b : Bytes) (w : World) (q : ℕ)
    → (deposit p b w).store q ≡ (
        if p == q && has_space w q
        then record (w.store q) {
          send = record (w.store q).send { queue = (w.store q).send.queue ++ b ∷ [] };
        }
        else w.store q)
unfolding deposit update
deposit-store p b w q = ground arith

pub deposit-room : (p : ℕ) (b : Bytes) (w : World) → (deposit p b w).room ≡ w.room
unfolding deposit
deposit-room p b w = ground arith

-- Every other client is untouched.
abbrev pub Spares : ℕ → World → World → Type 0
Spares p w w' = (q : ℕ) → q ≢ p → w'.store q ≡ w.store q

pub deposit-Spares : (p : ℕ) (b : Bytes) (w : World) → Spares p w (deposit p b w)
deposit-Spares p b w q h = ground (arith, deposit-store p b w q)

pub queue_bytes_open :
    (p : ℕ) (b : Bytes) (w : World)
    → IsOpen w p
    → queue_bytes p b w ≡ done (has_space w p, deposit p b w)
unfolding queue_bytes deposit send
queue_bytes_open p b w h = ground arith

-- A send on a closed channel, although in a select with a default, panics.
pub queue_bytes_closed :
    (p : ℕ) (b : Bytes) (w : World) → (w.store p).send.closed ≡ true → queue_bytes p b w ≡ panicked
unfolding queue_bytes send
queue_bytes_closed p b w h = rw (h, send)

pub deposit-Keeps : (p : ℕ) (b : Bytes) (w : World) → Keeps none w (deposit p b w)
unfolding deposit
deposit-Keeps p b w = elim (Bool-cases (has_space w p)) [
  | inl e ↦ rw e (Keeps-update w p _ refl refl)
  | inr e ↦ rw e (Keeps-refl none w)
]

pub Spares-update :
    (w : World) (p : ℕ) (c : Client) → Spares p w (record w { store = update w.store p c })
unfolding update
Spares-update w p c q h = ground arith

pub close_send-Keeps :
    (p : ℕ) (w : World)
    → (w' : World) × (close_send p w ≡ done (tt, w')) × Keeps (some p) w w' × Spares p w w'
unfolding close_send
close_send-Keeps p w = (_, refl, Keeps-update-some w p _ refl, Spares-update w p _)

pub Keeps-broadcast :
    (w : World) (ch : Channel Message)
    → ch.closed ≡ w.room.broadcast.closed
    → Keeps none w (record w { room = record w.room { broadcast = ch } })
Keeps-broadcast w ch h = record {
  clients = refl;
  max_clients = refl;
  timer = refl;
  broadcasting = h;
  registering = refl;
  accepting = refl;
  users = λ p. refl;
  closings = λ p k. refl;
}

-- A message offered to an open broadcast channel is queued or dropped; neither stops the room.
pub offer_broadcast_open :
    (o : Option Message) (w : World)
    → w.room.broadcast.closed ≡ false
    → (w' : World) × (offer_broadcast o w ≡ done (tt, w')) × Keeps none w w'
unfolding offer_broadcast send
offer_broadcast_open none w h = (w, refl, Keeps-refl none w)
offer_broadcast_open (some m) w h =
    let ch : Channel Message = record w.room.broadcast {
      queue = w.room.broadcast.queue ++ m ∷ [];
    } in
    elim (Bool-cases (ltb (length w.room.broadcast.queue) w.room.broadcast.capacity)) [
      | inl e ↦ (
        record w { room = record w.room { broadcast = ch } },
        ground (arith, h, e),
        Keeps-broadcast w ch refl,
      )
      | inr e ↦ (w, ground (arith, h, e), Keeps-refl none w)
    ]
