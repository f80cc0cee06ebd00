-- ===== src/Chat/Manager/Laws.antt =====
-- manager.go as a map from codes to rooms, and what Shutdown leaves.
use hzchat_server.Common.{
  ℕ, suc, ◌<◌, ◌≡◌, ◌≢◌, refl, Bool, true, false, List, [], ◌∷◌, none, some, arith, if◌then◌else◌,
  Bool-cases, Option-cases, inl, inr, ◌⊎◌,
}
use hzchat_server.Text.{
  Bytes, bytes_eq, bytes_eq_iff, lookup, insert, delete, lookup-insert, lookup-delete, KeysDistinct,
  insert-KeysDistinct, delete-KeysDistinct,
}
use hzchat_server.Errs.{new_error, err_room_code_exists}
use hzchat_server.Chat.World.{Room}
use hzchat_server.Chat.Room.Handlers.{new_room, stop}
use hzchat_server.Chat.Manager.{
  Manager, created, rejected, panicked, new_manager, find_room, create_room, get_room, delete_room,
  run_cleanup_loop, shutdown, put_stored, stop_all, stop_rooms,
}

get_room-find : (code : Bytes) (m : Manager) → get_room code m ≡ find_room code m.rooms
unfolding get_room
get_room-find code m = refl

-- The map of a manager that was not shut down: no code twice, and every room that it leads to is
-- allocated and has the code.
pub record IsValid (m : Manager) : Type 0 where
  pub rooms : List (Bytes × ℕ)
  pub running : m.rooms ≡ some rooms
  pub distinct : KeysDistinct rooms
  pub allocating : (code : Bytes) (p : ℕ) → lookup code rooms ≡ some p → p < m.allocated
  pub coded : (code : Bytes) (p : ℕ) → lookup code rooms ≡ some p → (m.store p).code ≡ code

pub new_manager-IsValid : (secret : Bytes) (store : ℕ → Room) → IsValid (new_manager secret store)
unfolding new_manager lookup
new_manager-IsValid secret store = record {
  rooms = [];
  running = refl;
  distinct = tt;
  allocating = λ code p h. cc;
  coded = λ code p h. cc;
}

abbrev pub Creates : Bytes → ℕ → Manager → Type 0
Creates code max_clients m =
    (m' : Manager) × (create_room code max_clients m ≡ created m.allocated m')
    × IsValid m'
    × (m'.store m.allocated ≡ new_room code max_clients m.jwt_secret)
    × ((other : Bytes)
        → get_room other m' ≡ (if bytes_eq code other then some m.allocated else get_room other m))

put_stored_self : (store : ℕ → Room) (p : ℕ) (r : Room) → put_stored store p r p ≡ r
unfolding put_stored
put_stored_self store p r = ground arith

put_stored_other :
    (store : ℕ → Room) (p q : ℕ) (r : Room) → q < p → put_stored store p r q ≡ store q
unfolding put_stored
put_stored_other store p q r h = ground arith

module _ (code : Bytes) (max_clients : ℕ) (m : Manager) (v : IsValid m) where
  inserted_coded :
      (other : Bytes) (p : ℕ)
      → lookup other (insert code m.allocated v.rooms) ≡ some p
      → (put_stored m.store m.allocated (new_room code max_clients m.jwt_secret) p).code ≡ other
  unfolding new_room
  inserted_coded other p h =
      let r : Room = new_room code max_clients m.jwt_secret in
      let law = lookup-insert code other m.allocated v.rooms in
      elim (Bool-cases (bytes_eq code other)) [
        | inl same ↦
            let mine : m.allocated ≡ p = ground (arith, law) in
            rw (← mine, put_stored_self m.store m.allocated r) ((bytes_eq_iff code other).0 same)
        | inr differs ↦
            let old : lookup other v.rooms ≡ some p = ground (arith, law) in
            rw (put_stored_other m.store m.allocated p r (v.allocating other p old))
              (v.coded other p old)
      ]

  inserted_allocating :
      (other : Bytes) (p : ℕ)
      → lookup other (insert code m.allocated v.rooms) ≡ some p
      → p < suc m.allocated
  inserted_allocating other p h =
      ground (arith, lookup-insert code other m.allocated v.rooms, v.allocating other p)

  create_room-new : get_room code m ≡ none → Creates code max_clients m
  unfolding create_room get_room
  create_room-new h =
      let absent : lookup code v.rooms ≡ none = rw v.running at h in
      let r : Room = new_room code max_clients m.jwt_secret in
      let m' : Manager = record m {
        rooms = some (insert code m.allocated v.rooms);
        store = put_stored m.store m.allocated r;
        allocated = suc m.allocated;
      } in
      (
        m',
        rw (v.running, create_room) (ground (arith, absent)),
        record {
          rooms = insert code m.allocated v.rooms;
          running = refl;
          distinct = insert-KeysDistinct code m.allocated v.rooms v.distinct;
          allocating = inserted_allocating;
          coded = inserted_coded;
        },
        put_stored_self m.store m.allocated r,
        λ other. rw v.running (lookup-insert code other m.allocated v.rooms),
      )

-- CreateRoom refuses a code that is in use with ErrRoomCodeExists. For any other code it makes a new
-- room with this code and limit: the map stays valid, the code leads to the new room, and every other
-- code leads to the room that it led to before.
pub create_room_lem :
    (code : Bytes) (max_clients : ℕ) (m : Manager)
    → IsValid m
    → ((get_room code m ≢ none)
        × (create_room code max_clients m ≡ rejected (new_error err_room_code_exists)))
      ⊎ ((get_room code m ≡ none) × Creates code max_clients m)
create_room_lem code max_clients m v = elim (Option-cases (get_room code m)) [
  | inl h ↦ inr (h, create_room-new code max_clients m v h)
  | inr (p, h) ↦ inl (λ e. cc, unfold create_room in ground (arith, get_room-find code m, h))
]

delete_room-IsValid : (code : Bytes) (m : Manager) → IsValid m → IsValid (delete_room code m)
unfolding delete_room
delete_room-IsValid code m v = record {
  rooms = delete code v.rooms;
  running = rw v.running refl;
  distinct = delete-KeysDistinct code v.rooms v.distinct;
  allocating = λ other p h.
      v.allocating other p (ground (arith, lookup-delete code other v.rooms v.distinct));
  coded =
      λ other p h. v.coded other p (ground (arith, lookup-delete code other v.rooms v.distinct));
}

delete_room-get :
    (code other : Bytes) (m : Manager)
    → IsValid m
    → get_room other (delete_room code m) ≡ (if bytes_eq code other then none else get_room other m)
unfolding delete_room get_room
delete_room-get code other m v = rw v.running (lookup-delete code other v.rooms v.distinct)

-- Whether a code is among those that were received.
abbrev pub received : Bytes → List Bytes → Bool
received code [] = false
received code (c ∷ codes) = if bytes_eq c code then true else received code codes

-- The cleanup loop removes exactly the rooms whose codes it receives, and
-- keeps a valid map valid.
pub run_cleanup_loop_lem :
    (codes : List Bytes) (m : Manager)
    → IsValid m
    → IsValid (run_cleanup_loop codes m)
      × ((code : Bytes)
          → get_room code (run_cleanup_loop codes m)
            ≡ (if received code codes then none else get_room code m))
unfolding run_cleanup_loop
run_cleanup_loop_lem [] m v = (v, λ code. refl)
run_cleanup_loop_lem (c ∷ codes) m v =
    let (valid, each) = run_cleanup_loop_lem codes (delete_room c m) (delete_room-IsValid c m v) in
    (valid, λ code. ground (arith, each code, delete_room-get c code m v))

stop_all_mono :
    (cs : List (Bytes × ℕ)) (store : ℕ → Room) (p : ℕ)
    → (store p).stop_closed ≡ true
    → (stop_all cs store p).stop_closed ≡ true
unfolding stop_all put_stored stop
stop_all_mono [] store p h = h
stop_all_mono ((j, q) ∷ cs) store p h =
    stop_all_mono cs (put_stored store q (stop (store q))) p (ground arith)

stop_all-lookup :
    (cs : List (Bytes × ℕ)) (store : ℕ → Room) (code : Bytes) (p : ℕ)
    → lookup code cs ≡ some p
    → (stop_all cs store p).stop_closed ≡ true
unfolding stop_all lookup put_stored stop
stop_all-lookup [] store code p h = cc
stop_all-lookup ((j, q) ∷ cs) store code p h = elim (Bool-cases (bytes_eq j code)) [
  | inl e ↦ stop_all_mono cs (put_stored store q (stop (store q))) p (ground arith)
  | inr e ↦ stop_all-lookup cs (put_stored store q (stop (store q))) code p (ground arith)
]

-- Shutdown returns if the cleanup channel is open: every room of the map is told to stop, no code
-- leads to a room any more, the cleanup channel is closed, and a second Shutdown panics. A CreateRoom
-- behind it panics for every code, since it writes to the nil map.
pub shutdown_lem :
    (m : Manager)
    → IsValid m
    → m.cleanup.closed ≡ false
    → (m' : Manager) × (shutdown m ≡ some m')
      × ((code : Bytes) (p : ℕ) → get_room code m ≡ some p → (m'.store p).stop_closed ≡ true)
      × ((code : Bytes) → get_room code m' ≡ none)
      × ((code : Bytes) (max_clients : ℕ) → create_room code max_clients m' ≡ panicked)
      × (shutdown m' ≡ none)
unfolding shutdown get_room create_room stop_rooms
shutdown_lem m v h = (
  record m {
    rooms = none;
    store = stop_rooms m.rooms m.store;
    cleanup = record m.cleanup { closed = true };
  },
  rw h refl,
  λ code p g. rw v.running (stop_all-lookup v.rooms m.store code p (rw v.running at g)),
  λ code. refl,
  λ code max_clients. refl,
  refl,
)
