-- ===== src/Chat/Room/Invariant.antt =====
-- The invariant of a running room of room.go.
use hzchat_server.Common.{ℕ, ◌≤◌, ◌<◌, ◌≡◌, ◌≢◌, ap, ◌∙◌, ◌↔◌, true, false, [], none, some, length}
use hzchat_server.Text.{Bytes, lookup, KeysDistinct}
use hzchat_server.Chat.World.{World}
use hzchat_server.Chat.Keeps.{Keeps, IsOpen}

-- Of a room whose loop runs: the map is keyed by the clients' user ids, without a second entry for an
-- id; listed clients have open channels; the limit is kept; the shutdown timer runs exactly while the
-- room is empty; the room's channels are open.
pub record IsValid (w : World) : Type 0 where
  pub keyed : (id : Bytes) (p : ℕ) → lookup id w.room.clients ≡ some p → (w.store p).user.id ≡ id
  pub opened : (id : Bytes) (p : ℕ) → lookup id w.room.clients ≡ some p → IsOpen w p
  pub distinct : KeysDistinct w.room.clients
  pub bounded : 0 < w.room.max_clients → length w.room.clients ≤ w.room.max_clients
  pub timed : (w.room.timer_running ≡ true) ↔ (w.room.clients ≡ [])
  pub broadcasting : w.room.broadcast.closed ≡ false
  pub registering : w.room.register_closed ≡ false
  pub accepting : w.room.unregister_closed ≡ false

pub Keeps-IsValid : {w w' : World} → Keeps none w w' → IsValid w → IsValid w'
Keeps-IsValid {w} {w'} k v = record {
  keyed = λ id p h. ap (λ u. u.id) (k.users p) ∙ v.keyed id p (rw k.clients at h);
  opened = λ id p h. k.closings p (λ e. cc) ∙ v.opened id p (rw k.clients at h);
  distinct = rw k.clients v.distinct;
  bounded = rw (k.clients, k.max_clients) v.bounded;
  timed = rw (k.clients, k.timer) v.timed;
  broadcasting = k.broadcasting ∙ v.broadcasting;
  registering = k.registering ∙ v.registering;
  accepting = k.accepting ∙ v.accepting;
}

-- Closing the channel of a client that the room does not list changes nothing for the room.
pub Keeps-IsValid_unlisted :
    {w w' : World} (p : ℕ)
    → Keeps (some p) w w'
    → ((id : Bytes) → lookup id w.room.clients ≢ some p)
    → IsValid w
    → IsValid w'
Keeps-IsValid_unlisted {w} {w'} p k out v = record {
  keyed = λ id q h. ap (λ u. u.id) (k.users q) ∙ v.keyed id q (rw k.clients at h);
  opened = λ id q h.
      let here : lookup id w.room.clients ≡ some q = rw k.clients at h in
      k.closings q (λ e. out id (here ∙ e)) ∙ v.opened id q here;
  distinct = rw k.clients v.distinct;
  bounded = rw (k.clients, k.max_clients) v.bounded;
  timed = rw (k.clients, k.timer) v.timed;
  broadcasting = k.broadcasting ∙ v.broadcasting;
  registering = k.registering ∙ v.registering;
  accepting = k.accepting ∙ v.accepting;
}
