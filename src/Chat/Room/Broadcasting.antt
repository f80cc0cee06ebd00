-- ===== src/Chat/Room/Broadcasting.antt =====
-- handleBroadcast of room.go: who receives a message.
use hzchat_server.Common.{
  ℕ, ◌≡◌, refl, ap, ◌∙◌, Bool, false, not, ◌&&◌, List, [], ◌∷◌, ◌++◌, none, some, arith, ltb, ◌==◌,
  if◌then◌else◌, length, Bool-cases, inl, inr, ==_iff,
}
use hzchat_server.Text.{Bytes, bytes_eq, bytes_eq_iff, lookup, KeysDistinct}
use hzchat_server.Chat.Message.{Message, type_error}
use hzchat_server.Chat.World.{World, Client, Runtime, done}
use hzchat_server.Chat.Keeps.{
  Marshals, Keeps, Keeps-refl, Keeps-trans, IsOpen, has_space, deposit, deposit-store,
  deposit-Keeps, queue_bytes_open,
}
use hzchat_server.Chat.Room.Handlers.{handle_broadcast, deliver}
use hzchat_server.Chat.Room.Invariant.{IsValid, Keeps-IsValid}

-- Whether an id leads to this connection.
abbrev pub leads_to : Bytes → List (Bytes × ℕ) → ℕ → Bool
leads_to id cs p = elim (lookup id cs) [ none ↦ false | some q ↦ q == p ]

abbrev pub append_bytes : Bytes → Client → Client
append_bytes b c = record c { send = record c.send { queue = c.send.queue ++ b ∷ [] } }

-- What a broadcast leaves of the client p: one more message in its queue if it is listed, is not the
-- sender, and has space; and nothing else.
abbrev pub after_delivery : Bytes → Bytes → List (Bytes × ℕ) → ℕ → Client → Client
after_delivery sender_id b cs p c =
    if leads_to c.user.id cs p
      && (not (bytes_eq c.user.id sender_id) && ltb (length c.send.queue) c.send.capacity)
    then append_bytes b c
    else c

-- The state after one round of the loop.
abbrev round : Bytes → Bytes → ℕ → World → World
round sender_id b p w = if bytes_eq (w.store p).user.id sender_id then w else deposit p b w

round-Keeps : (sender_id b : Bytes) (p : ℕ) (w : World) → Keeps none w (round sender_id b p w)
round-Keeps sender_id b p w = elim (Bool-cases (bytes_eq (w.store p).user.id sender_id)) [
  | inl e ↦ rw e (Keeps-refl none w)
  | inr e ↦ rw e (deposit-Keeps p b w)
]

module _ (rt : Runtime) (sender_id b : Bytes) where
  -- The entries that are left are keyed by their clients' ids, and these have open channels.
  record Serves (cs : List (Bytes × ℕ)) (w : World) : Type 0 where
    distinct : KeysDistinct cs
    keyed : (id : Bytes) (p : ℕ) → lookup id cs ≡ some p → (w.store p).user.id ≡ id
    opened : (id : Bytes) (p : ℕ) → lookup id cs ≡ some p → IsOpen w p

  Serves-tail :
      (j : Bytes) (p : ℕ) (cs : List (Bytes × ℕ)) (w : World)
      → Serves ((j, p) ∷ cs) w
      → Serves cs (round sender_id b p w)
  unfolding lookup
  Serves-tail j p cs w s =
      let k = round-Keeps sender_id b p w in
      let deeper = λ (id : Bytes) (q : ℕ) (h : lookup id cs ≡ some q).
        let t : lookup id ((j, p) ∷ cs) ≡ some q =
          ground (arith, s.distinct.0, h, bytes_eq_iff j id) in
        t in
      record {
        distinct = s.distinct.1;
        keyed = λ id q h. ap (λ u. u.id) (k.users q) ∙ s.keyed id q (deeper id q h);
        opened = λ id q h. k.closings q (λ e. cc) ∙ s.opened id q (deeper id q h);
      }

  head-found : (j : Bytes) (p : ℕ) (cs : List (Bytes × ℕ)) → lookup j ((j, p) ∷ cs) ≡ some p
  unfolding lookup
  head-found j p cs = ground (arith, bytes_eq_iff j j)

  round_lem :
      (j : Bytes) (p : ℕ) (cs : List (Bytes × ℕ)) (w : World)
      → Serves ((j, p) ∷ cs) w
      → deliver rt sender_id b ((j, p) ∷ cs) w ≡ deliver rt sender_id b cs (round sender_id b p w)
  unfolding deliver
  round_lem j p cs w s = ground (arith, queue_bytes_open p b w (s.opened j p (head-found j p cs)))

  round-store_self :
      (p : ℕ) (w : World)
      → (round sender_id b p w).store p ≡ (
          if not (bytes_eq (w.store p).user.id sender_id) && has_space w p
          then append_bytes b (w.store p)
          else w.store p)
  round-store_self p w = ground (arith, deposit-store p b w p)

  round-store_other :
      (p : ℕ) (w : World) (q : ℕ) → (p == q) ≡ false → (round sender_id b p w).store q ≡ w.store q
  round-store_other p w q h = ground (arith, deposit-store p b w q)

  after_round_self :
      (j : Bytes) (p : ℕ) (cs : List (Bytes × ℕ)) (w : World)
      → Serves ((j, p) ∷ cs) w
      → after_delivery sender_id b cs p ((round sender_id b p w).store p)
        ≡ after_delivery sender_id b ((j, p) ∷ cs) p (w.store p)
  after_round_self j p cs w s =
      let mine = s.keyed j p (head-found j p cs) in
      let found : lookup (w.store p).user.id ((j, p) ∷ cs) ≡ some p =
        ap (λ k. lookup k ((j, p) ∷ cs)) mine ∙ head-found j p cs in
      let gone : lookup (w.store p).user.id cs ≡ none = ap (λ k. lookup k cs) mine ∙ s.distinct.0 in
      rw (round-store_self p w)
        (elim (Bool-cases (not (bytes_eq (w.store p).user.id sender_id) && has_space w p)) [
          | inl e ↦ rw e (ground (arith, gone, found, e))
          | inr e ↦ rw e (ground (arith, gone, found, e))
        ])

  after_round_other :
      (j : Bytes) (p : ℕ) (cs : List (Bytes × ℕ)) (w : World) (q : ℕ)
      → Serves ((j, p) ∷ cs) w
      → (p == q) ≡ false
      → after_delivery sender_id b cs q ((round sender_id b p w).store q)
        ≡ after_delivery sender_id b ((j, p) ∷ cs) q (w.store q)
  unfolding lookup
  after_round_other j p cs w q s h =
      rw (round-store_other p w q h)
        (ground (arith, s.distinct.0, bytes_eq_iff j (w.store q).user.id, h))

  -- One round and then the rest is the whole delivery, for every client.
  after_round :
      (j : Bytes) (p : ℕ) (cs : List (Bytes × ℕ)) (w : World) (q : ℕ)
      → Serves ((j, p) ∷ cs) w
      → after_delivery sender_id b cs q ((round sender_id b p w).store q)
        ≡ after_delivery sender_id b ((j, p) ∷ cs) q (w.store q)
  after_round j p cs w q s = elim (Bool-cases (p == q)) [
    | inl e ↦ let same = (==_iff p q).0 e in rw (← same) (after_round_self j p cs w s)
    | inr e ↦ after_round_other j p cs w q s e
  ]

  deliver_lem :
      (cs : List (Bytes × ℕ)) (w : World)
      → Serves cs w
      → (w' : World) × (deliver rt sender_id b cs w ≡ done (tt, w'))
        × Keeps none w w'
        × ((q : ℕ) → w'.store q ≡ after_delivery sender_id b cs q (w.store q))
  unfolding deliver lookup
  deliver_lem [] w s = (w, refl, Keeps-refl none w, λ q. refl)
  deliver_lem ((j, p) ∷ cs) w s =
      let (w', e, k, each) = deliver_lem cs (round sender_id b p w) (Serves-tail j p cs w s) in
      (
        w',
        round_lem j p cs w s ∙ e,
        Keeps-trans (round-Keeps sender_id b p w) k,
        λ q. each q ∙ after_round j p cs w q s,
      )

-- In a valid room handleBroadcast returns, and the invariant holds again with the same members: a
-- message of type ERROR leaves every client as it was; of any other message, every listed client but
-- the sender gets it at the end of its queue if the queue has space, and every other client stays as
-- it was. A client whose queue is full stays in the room, without the message.
pub handle_broadcast-delivers :
    (rt : Runtime) (js : Marshals rt) (m : Message) (w : World)
    → IsValid w
    → (w' : World) × (handle_broadcast rt m w ≡ done (tt, w'))
      × IsValid w'
      × (w'.room.clients ≡ w.room.clients)
      × ((p : ℕ)
          → w'.store p ≡ (
              if bytes_eq m.type type_error
              then w.store p
              else after_delivery m.sender.id (js.message_json m) w.room.clients p (w.store p)))
unfolding handle_broadcast
handle_broadcast-delivers rt js m w v = elim (Bool-cases (bytes_eq m.type type_error)) [
  | inl e ↦ (w, ground (arith, e), v, refl, λ p. rw e refl)
  | inr h ↦
      let start : Serves rt m.sender.id (js.message_json m) w.room.clients w = record {
        distinct = v.distinct;
        keyed = v.keyed;
        opened = v.opened;
      } in
      let (w', e, k, each) =
        deliver_lem rt m.sender.id (js.message_json m) w.room.clients w start in
      (
        w',
        ground (arith, h, js.marshal_message_eq m, e),
        Keeps-IsValid k v,
        k.clients,
        λ p. rw h (each p),
      )
]
