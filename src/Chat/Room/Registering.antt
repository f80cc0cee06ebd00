-- ===== src/Chat/Room/Registering.antt =====
-- handleRegister of room.go: the invariant, and whom it admits.
use hzchat_server.Common.{
  ℕ, ◌≤◌, ◌<◌, ◌≡◌, ◌≢◌, refl, sym, ap, ◌∙◌, true, false, not, ◌&&◌, [], Option, none, some, arith,
  if◌then◌else◌, length, Bool-cases, inl, inr,
}
use hzchat_server.Text.{
  Bytes, bytes, bytes_eq, bytes_eq_iff, lookup, insert, lookup-insert, insert-KeysDistinct,
  length-insert, insert-ne-nil,
}
use hzchat_server.Chat.Message.{type_user_joined, system_user, user_event}
use hzchat_server.Chat.World.{World, Runtime, done}
use hzchat_server.Chat.Client.Sending.{plain}
use hzchat_server.Chat.Client.Effects.{
  kick-Keeps, send_error_open, send_init_data_open, new_message_lem, later, built,
}
use hzchat_server.Chat.Keeps.{
  Marshals, Keeps, Keeps-refl, Keeps-trans, Keeps-none, Keeps-counters, IsOpen, has_space,
  close_send-Keeps, offer_broadcast_open,
}
use hzchat_server.Chat.Room.Handlers.{
  at_capacity, is_listed, handle_register, kick_existing, reject_client, admit_client,
  announce_join, set_timer, get_init_data_payload,
}
use hzchat_server.Chat.Room.Invariant.{IsValid, Keeps-IsValid, Keeps-IsValid_unlisted}

-- A client as NewClient makes it, before the room knows it: its channel is open and has space, and
-- the room does not list this connection.
pub record IsFresh (w : World) (p : ℕ) : Type 0 where
  pub opening : IsOpen w p
  pub space : has_space w p ≡ true
  pub unlisted : lookup (w.store p).user.id w.room.clients ≢ some p

pub IsFresh-unlisted :
    {w : World} (p : ℕ) → IsValid w → IsFresh w p → (id : Bytes) → lookup id w.room.clients ≢ some p
IsFresh-unlisted {w} p v f id h =
    f.unlisted (ap (λ k. lookup k w.room.clients) (v.keyed id p h) ∙ h)

-- The state after the map's write.
abbrev listed : World → Bytes → ℕ → World
listed w id p = record w { room = record w.room { clients = insert id p w.room.clients } }

-- The same, with the timer stopped.
abbrev admitted : World → Bytes → ℕ → World
admitted w id p = record w {
  room = record w.room { timer_running = false; clients = insert id p w.room.clients };
}

module _ {w v : World} (p : ℕ) (valid : IsValid w) (fresh : IsFresh w p)
    (k : Keeps (lookup (w.store p).user.id w.room.clients) w v) where
  admitted-keyed :
      (id : Bytes) (q : ℕ)
      → lookup id (insert (w.store p).user.id p w.room.clients) ≡ some q
      → (v.store q).user.id ≡ id
  admitted-keyed id q h =
      ap (λ u. u.id) (k.users q)
      ∙ ground (
        arith,
        lookup-insert (w.store p).user.id id p w.room.clients,
        bytes_eq_iff (w.store p).user.id id,
        valid.keyed id q,
      )

  -- A client that stays listed under another id is not the kicked one.
  stays-not_kicked :
      (id : Bytes) (q : ℕ)
      → bytes_eq (w.store p).user.id id ≡ false
      → lookup id w.room.clients ≡ some q
      → some q ≢ lookup (w.store p).user.id w.room.clients
  stays-not_kicked id q other h e =
      let a = valid.keyed id q h in
      let b = valid.keyed (w.store p).user.id q (sym e) in
      ground (arith, bytes_eq_iff (w.store p).user.id id, a, b)

  admitted-opened :
      (id : Bytes) (q : ℕ)
      → lookup id (insert (w.store p).user.id p w.room.clients) ≡ some q
      → IsOpen v q
  admitted-opened id q h = elim (Bool-cases (bytes_eq (w.store p).user.id id)) [
    | inl same ↦
        let mine : p ≡ q = ground (arith, lookup-insert (w.store p).user.id id p w.room.clients) in
        rw (← mine) (k.closings p (λ e. fresh.unlisted (sym e)) ∙ fresh.opening)
    | inr other ↦
        let here : lookup id w.room.clients ≡ some q =
          ground (arith, lookup-insert (w.store p).user.id id p w.room.clients) in
        k.closings q (stays-not_kicked id q other here) ∙ valid.opened id q here
  ]

  admitted-bounded :
      (not (is_listed (w.store p).user.id w.room) && at_capacity w.room) ≡ false
      → 0 < w.room.max_clients
      → length (insert (w.store p).user.id p w.room.clients) ≤ w.room.max_clients
  admitted-bounded room_left h =
      ground (arith, length-insert (w.store p).user.id p w.room.clients, valid.bounded h)

  admitted-IsValid :
      (not (is_listed (w.store p).user.id w.room) && at_capacity w.room) ≡ false
      → IsValid (admitted v (w.store p).user.id p)
  admitted-IsValid room_left = record {
    keyed = λ id q h. admitted-keyed id q (rw k.clients at h);
    opened = λ id q h. admitted-opened id q (rw k.clients at h);
    distinct =
        rw k.clients (insert-KeysDistinct (w.store p).user.id p w.room.clients valid.distinct);
    bounded = rw (k.clients, k.max_clients) (admitted-bounded room_left);
    timed = (λ h. cc, λ h. absurd (insert-ne-nil (w.store p).user.id p v.room.clients h));
    broadcasting = k.broadcasting ∙ valid.broadcasting;
    registering = k.registering ∙ valid.registering;
    accepting = k.accepting ∙ valid.accepting;
  }

-- A full room is not empty: stopping the timer keeps the invariant.
stopped-IsValid :
    (w : World)
    → at_capacity w.room ≡ true
    → IsValid w
    → IsValid (record w { room = record w.room { timer_running = false } })
stopped-IsValid w full v = record {
  keyed = v.keyed;
  opened = v.opened;
  distinct = v.distinct;
  bounded = v.bounded;
  timed = (λ h. cc, λ (e : w.room.clients ≡ []). ground (arith, e));
  broadcasting = v.broadcasting;
  registering = v.registering;
  accepting = v.accepting;
}

module _ (rt : Runtime) (js : Marshals rt) where
  -- What handleRegister leaves of a valid room.
  abbrev pub Registered : World → ℕ → World → Type 0
  Registered w p w' =
      IsValid w'
      × (w'.room.clients ≡ (
          if not (is_listed (w.store p).user.id w.room) && at_capacity w.room
          then w.room.clients
          else insert (w.store p).user.id p w.room.clients))

  kick_existing-Keeps :
      (o : Option ℕ) (w : World)
      → (w' : World) × (kick_existing rt o w ≡ done (tt, w'))
        × Keeps o w w'
        × ((q : ℕ) → some q ≢ o → w'.store q ≡ w.store q)
  unfolding kick_existing
  kick_existing-Keeps none w = (w, refl, Keeps-refl none w, λ q h. refl)
  kick_existing-Keeps (some q) w =
      let reason = bytes "Session replaced by new connection. Check other tabs." in
      let (w', e, k, s) = kick-Keeps rt js q reason w in
      (w', e, k, λ r h. s r (λ same. h (ap some same)))

  reject_client-Keeps :
      (p : ℕ) (w : World)
      → IsOpen w p
      → (w' : World) × (reject_client rt p w ≡ done (tt, w')) × Keeps (some p) w w'
  unfolding reject_client
  reject_client-Keeps p w h =
      let (v, e, k, _, _) = send_error_open rt js p (plain (bytes "room is full")) w h in
      let (w', e', k', _) = close_send-Keeps p v in
      (w', ground (arith, e, e'), Keeps-trans (Keeps-none k) k')

  announce_join-Keeps :
      (p : ℕ) (w : World)
      → w.room.broadcast.closed ≡ false
      → (w' : World) × (announce_join rt p true w ≡ done (tt, w')) × Keeps none w w'
  unfolding announce_join
  announce_join-Keeps p w h =
      let joined = user_event (w.store p).user in
      let made = some (built rt js w type_user_joined w.room.code system_user joined) in
      let (w', e, k) = offer_broadcast_open made (later rt js w) h in
      (
        w',
        ground (arith, new_message_lem rt js type_user_joined w.room.code system_user joined w, e),
        Keeps-trans (Keeps-counters none w _ _) k,
      )

  admit_client-Keeps :
      (p : ℕ) (w : World)
      → IsOpen w p
      → has_space w p ≡ true
      → w.room.broadcast.closed ≡ false
      → (w' : World) × (admit_client rt p w ≡ done (tt, w'))
        × Keeps none (listed w (w.store p).user.id p) w'
  unfolding admit_client
  admit_client-Keeps p w h space speaking =
      let u = listed w (w.store p).user.id p in
      let payload = get_init_data_payload u (w.store p).user in
      let (v, e, k) = send_init_data_open rt js p payload u h in
      let (w', e', k') = announce_join-Keeps p v (k.broadcasting ∙ speaking) in
      (w', ground (arith, e, e', space), Keeps-trans k k')

  -- The state in which handleRegister tests the capacity.
  abbrev stopped : World → World
  stopped w = record w { room = record w.room { timer_running = false } }

  register_rejected :
      (p : ℕ) (w v : World)
      → IsValid w
      → IsFresh w p
      → Keeps (lookup (w.store p).user.id w.room.clients) w v
      → is_listed (w.store p).user.id w.room ≡ false
      → at_capacity w.room ≡ true
      → (w' : World) × (reject_client rt p (stopped v) ≡ done (tt, w')) × Registered w p w'
  register_rejected p w v valid fresh k new full =
      let missing : lookup (w.store p).user.id w.room.clients ≡ none = ground (arith, new) in
      let k₀ : Keeps none w v = rw missing at k in
      let (w', e, k') =
        reject_client-Keeps p (stopped v) (k₀.closings p (λ h. cc) ∙ fresh.opening) in
      (
        w',
        e,
        (
          Keeps-IsValid_unlisted p k'
              (λ id h. IsFresh-unlisted p valid fresh id (rw k₀.clients at h))
              (stopped-IsValid v (rw (k₀.clients, k₀.max_clients) full) (Keeps-IsValid k₀ valid)),
          k'.clients ∙ k₀.clients ∙ ground (arith, new, full),
        ),
      )

  register_admitted :
      (p : ℕ) (w v : World)
      → IsValid w
      → IsFresh w p
      → Keeps (lookup (w.store p).user.id w.room.clients) w v
      → v.store p ≡ w.store p
      → (not (is_listed (w.store p).user.id w.room) && at_capacity w.room) ≡ false
      → (w' : World) × (admit_client rt p (stopped v) ≡ done (tt, w')) × Registered w p w'
  register_admitted p w v valid fresh k same room_left =
      let (w', e, k') =
        admit_client-Keeps p (stopped v) (ap (λ c. c.send.closed) same ∙ fresh.opening)
          (rw same fresh.space) (k.broadcasting ∙ valid.broadcasting) in
      let k₁ : Keeps none (admitted v (w.store p).user.id p) w' = rw same at k' in
      (
        w',
        e,
        (
          Keeps-IsValid k₁ (admitted-IsValid p valid fresh k room_left),
          k₁.clients ∙ rw (k.clients, room_left) refl,
        ),
      )

  -- A client as NewClient makes it registers: handleRegister returns, the invariant holds again, and
  -- the map is as it was exactly where the user is new and the room is full; else the user's id leads
  -- to this connection.
  pub handle_register-IsValid :
      (w : World) (p : ℕ)
      → IsValid w
      → IsFresh w p
      → (w' : World) × (handle_register rt p w ≡ done (tt, w')) × Registered w p w'
  handle_register-IsValid w p valid fresh =
      let o = lookup (w.store p).user.id w.room.clients in
      let (v, e, k, spare) = kick_existing-Keeps o w in
      let test = not (is_listed (w.store p).user.id w.room) && at_capacity w.room in
      elim (Bool-cases test) [
        | inl full ↦
            let (w', e', done_well) =
              register_rejected p w v valid fresh k (ground (arith, full)) (ground (arith, full)) in
            (w', unfold handle_register set_timer in ground (arith, e, e', full), done_well)
        | inr left ↦
            let (w', e', done_well) =
              register_admitted p w v valid fresh k (spare p (λ h. fresh.unlisted (sym h))) left in
            (w', unfold handle_register set_timer in ground (arith, e, e', left), done_well)
      ]
