-- ===== src/Chat/Room/Unregistering.antt =====
-- handleUnregister of room.go: the invariant, and whom it removes.
use hzchat_server.Common.{
  ℕ, ◌≡◌, ◌≢◌, refl, ap, ◌∙◌, ◌↔◌, Bool, true, false, List, [], ◌∷◌, none, some, arith, ◌==◌,
  if◌then◌else◌, length, Bool-cases, Option-cases, inl, inr,
}
use hzchat_server.Text.{
  Bytes, bytes_eq, bytes_eq_iff, lookup, delete, lookup-delete, delete-KeysDistinct, length-delete,
}
use hzchat_server.Chat.Message.{type_user_left, system_user, user_event}
use hzchat_server.Chat.World.{World, Runtime, done}
use hzchat_server.Chat.Client.Effects.{new_message_lem, later, built}
use hzchat_server.Chat.Keeps.{
  Marshals, Keeps, Keeps-trans, Keeps-none, Keeps-counters, IsOpen, close_send-Keeps,
  offer_broadcast_open,
}
use hzchat_server.Chat.Room.Handlers.{handle_unregister, remove_client, set_timer}
use hzchat_server.Chat.Room.Invariant.{IsValid}

-- The state after the map's delete.
abbrev without : World → Bytes → World
without w id = record w { room = record w.room { clients = delete id w.room.clients } }

-- The state after the test whether the room is empty.
abbrev timed_after : World → World
timed_after v =
    if length v.room.clients == 0
    then record v { room = record v.room { timer_running = true } }
    else v

abbrev with_timer : World → Bool → World
with_timer v b = record v { room = record v.room { timer_running = b } }

timed_after-clients : (v : World) → (timed_after v).room.clients ≡ v.room.clients
timed_after-clients v = ground arith

empty_of_length : (cs : List (Bytes × ℕ)) → length cs ≡ 0 → cs ≡ []
empty_of_length [] h = refl
empty_of_length (c ∷ cs) h = absurd (omega arith)

module _ {w v : World} (p : ℕ) (valid : IsValid w)
    (current : lookup (w.store p).user.id w.room.clients ≡ some p)
    (k : Keeps (some p) (without w (w.store p).user.id) v) where
  removed-lookup :
      (id : Bytes) (q : ℕ)
      → lookup id (delete (w.store p).user.id w.room.clients) ≡ some q
      → (lookup id w.room.clients ≡ some q) × (bytes_eq (w.store p).user.id id ≡ false)
  removed-lookup id q h =
      let law = lookup-delete (w.store p).user.id id w.room.clients valid.distinct in
      (ground (arith, law), ground (arith, law))

  removed-opened :
      (id : Bytes) (q : ℕ)
      → lookup id (delete (w.store p).user.id w.room.clients) ≡ some q
      → IsOpen v q
  removed-opened id q h =
      let (here, other) = removed-lookup id q h in
      k.closings q (λ e.
        let a = valid.keyed id q here in ground (arith, bytes_eq_iff (w.store p).user.id id, a, e))
      ∙ valid.opened id q here

  was_running : w.room.timer_running ≡ false
  was_running = elim (Bool-cases w.room.timer_running) [
    | inl e ↦ let empty = valid.timed.0 e in cc (ap (lookup (w.store p).user.id) empty, lookup_nil)
    | inr e ↦ e
  ]
    where
      lookup_nil : lookup {V = ℕ} (w.store p).user.id [] ≡ none
      lookup_nil = unfold lookup in refl

  removed-IsValid : (b : Bool) → ((b ≡ true) ↔ (v.room.clients ≡ [])) → IsValid (with_timer v b)
  removed-IsValid b timed = record {
    keyed = λ id q h.
        ap (λ u. u.id) (k.users q) ∙ valid.keyed id q (removed-lookup id q (rw k.clients at h)).0;
    opened = λ id q h. removed-opened id q (rw k.clients at h);
    distinct = rw k.clients (delete-KeysDistinct (w.store p).user.id w.room.clients valid.distinct);
    bounded = λ h.
        let fewer = length-delete (w.store p).user.id w.room.clients in
        let before = valid.bounded (rw k.max_clients at h) in
        rw (k.clients, k.max_clients) (omega arith);
    timed = timed;
    broadcasting = k.broadcasting ∙ valid.broadcasting;
    registering = k.registering ∙ valid.registering;
    accepting = k.accepting ∙ valid.accepting;
  }

  timed_after-IsValid : IsValid (timed_after v)
  timed_after-IsValid = elim (Bool-cases (length v.room.clients == 0)) [
    | inl none_left ↦ rw none_left (
        removed-IsValid true
          (λ _. empty_of_length v.room.clients (ground (arith, none_left)), λ _. refl))
    | inr some_left ↦ rw some_left (
        removed-IsValid v.room.timer_running (
          λ h. cc (k.timer, was_running),
          λ (h : v.room.clients ≡ []). cc (ap (λ l. length l == 0) h),
        ))
  ]

module _ (rt : Runtime) (js : Marshals rt) where
  remove_client-Keeps :
      (p : ℕ) (w : World)
      → w.room.broadcast.closed ≡ false
      → (v : World) × (remove_client rt p w ≡ done (tt, timed_after v))
        × Keeps (some p) (without w (w.store p).user.id) v
  unfolding remove_client set_timer
  remove_client-Keeps p w speaking =
      let (u, e, k, _) = close_send-Keeps p (without w (w.store p).user.id) in
      let left = user_event (w.store p).user in
      let made = some (built rt js u type_user_left w.room.code system_user left) in
      let (v, e', k') = offer_broadcast_open made (later rt js u) (k.broadcasting ∙ speaking) in
      (
        v,
        ground (arith, e, new_message_lem rt js type_user_left w.room.code system_user left u, e'),
        Keeps-trans k (Keeps-none (Keeps-trans (Keeps-counters none u _ _) k')),
      )

  -- What handleUnregister leaves of a valid room.
  abbrev pub Unregistered : World → ℕ → World → Type 0
  Unregistered w p w' =
      IsValid w'
      × ((lookup (w.store p).user.id w.room.clients ≡ some p
            → w'.room.clients ≡ delete (w.store p).user.id w.room.clients)
          × (lookup (w.store p).user.id w.room.clients ≢ some p → w' ≡ w))

  -- handleUnregister returns in every valid room and keeps the invariant. Where the user's id leads to
  -- this connection, the entry is deleted; for a connection that was replaced, or that is not listed,
  -- nothing at all changes.
  pub handle_unregister-IsValid :
      (w : World) (p : ℕ)
      → IsValid w
      → (w' : World) × (handle_unregister rt p w ≡ done (tt, w')) × Unregistered w p w'
  unfolding handle_unregister
  handle_unregister-IsValid w p valid =
      elim (Option-cases (lookup (w.store p).user.id w.room.clients)) [
        | inl missing ↦ (w, ground (arith, missing), (valid, (λ h. cc, λ h. refl)))
        | inr (q, found) ↦ elim (Bool-cases (q == p)) [
          | inl same ↦
              let current : lookup (w.store p).user.id w.room.clients ≡ some p =
                ground (arith, found, same) in
              let (v, e, k) = remove_client-Keeps p w valid.broadcasting in
              (
                timed_after v,
                ground (arith, current, e),
                (
                  timed_after-IsValid p valid current k,
                  (λ h. timed_after-clients v ∙ k.clients, λ h. absurd (h current)),
                ),
              )
          | inr other ↦ (
            w,
            ground (arith, found, other),
            (valid, (λ h. ground (arith, found, other), λ h. refl)),
          )
        ]
      ]
