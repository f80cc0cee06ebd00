-- ===== src/Handler/Rooms/Laws.antt =====
-- What HandleCreateRoom leaves, from the random digits to the map of the rooms.
use hzchat_server.Common.{
  ℕ, ◌<◌, ◌≡◌, ◌≢◌, refl, ap, ◌⊎◌, inl, inr, true, Option, none, some, if◌then◌else◌, Bool-cases,
}
use hzchat_server.Text.{Bytes, bytes, bytes_eq, bytes_eq_iff}
use hzchat_server.Errs.{
  CustomError, new_error, err_room_code_exists, err_room_type_invalid, err_unknown,
}
use hzchat_server.Http.{Bound, bound, unbound, bind_json}
use hzchat_server.Randx.{room_code, text, is_valid_room_code}
use hzchat_server.Randx.Laws.{InRange, room_code-is_valid}
use hzchat_server.Chat.Room.Handlers.{new_room}
use hzchat_server.Chat.Manager.{Manager, get_room}
use hzchat_server.Chat.Manager.Laws.{IsValid, create_room_lem}
use hzchat_server.Handler.Rooms.{
  Reply, refused, replied, max_clients_of, reply_created, create_drawn, CreateRoomInput,
  create_room_of, create_bound, handle_create_room,
}

-- A new room of this limit, and nothing else.
abbrev pub IsOpened : ℕ → Bytes → Manager → Manager → Type 0
IsOpened max_clients code m m' =
    (is_valid_room_code code ≡ true)
    × (get_room code m ≡ none)
    × ((p : ℕ) × (m'.store p ≡ new_room code max_clients m.jwt_secret)
        × ((other : Bytes)
            → get_room other m' ≡ (if bytes_eq code other then some p else get_room other m)))

abbrev IsHandled : ℕ → Bytes → Manager → Reply × Manager → Type 0
IsHandled max_clients code m o =
    ((o ≡ (refused (new_error err_room_code_exists), m)) × (get_room code m ≢ none))
    ⊎ ((m' : Manager) × (o ≡ (replied code, m')) × IsValid m' × IsOpened max_clients code m m')

new_room-code :
    (code : Bytes) (max_clients : ℕ) (secret : Bytes)
    → (new_room code max_clients secret).code ≡ code
unfolding new_room
new_room-code code max_clients secret = refl

create_drawn_text :
    (max_clients : ℕ) (code : Bytes) (m : Manager)
    → IsValid m
    → is_valid_room_code code ≡ true
    → IsHandled max_clients code m (create_drawn max_clients m (text code))
unfolding create_drawn reply_created
create_drawn_text max_clients code m v fine = elim (create_room_lem code max_clients m v) [
  | inl (used, e) ↦ inl (rw e refl, used)
  | inr (absent, (m', e, valid, stored, each)) ↦ inr (
    m',
    rw (e, stored) (ap (λ c. (replied c, m')) (new_room-code code max_clients m.jwt_secret)),
    valid,
    (fine, absent, (m.allocated, stored, each)),
  )
]

Type-cases :
    (type : Bytes)
    → ((type ≡ bytes "private") × (max_clients_of type ≡ 2))
      ⊎ (((type ≡ bytes "group") × (max_clients_of type ≡ 10))
          ⊎ ((type ≢ bytes "private") × (type ≢ bytes "group") × (max_clients_of type ≡ 0)))
unfolding max_clients_of
Type-cases type = elim (Bool-cases (bytes_eq type (bytes "private"))) [
  | inl e ↦ inl ((bytes_eq_iff type (bytes "private")).0 e, rw e refl)
  | inr e ↦ elim (Bool-cases (bytes_eq type (bytes "group"))) [
    | inl f ↦ inr (inl ((bytes_eq_iff type (bytes "group")).0 f, rw (e, f) refl))
    | inr f ↦ inr (
        inr (
          λ h. cc (e, (bytes_eq_iff type (bytes "private")).1 h),
          λ h. cc (f, (bytes_eq_iff type (bytes "group")).1 h),
          rw (e, f) refl,
        ))
  ]
]

-- Why a room is not created, with the error for it: no case fits the type, one of the six readings
-- fails, or the code that was drawn is in use.
abbrev pub IsRefusal : (ℕ → Option ℕ) → Bytes → Manager → CustomError → Type 0
IsRefusal rand type m e =
    ((type ≢ bytes "private") × (type ≢ bytes "group") × (e ≡ new_error err_room_type_invalid))
    ⊎ (((j : ℕ) × (j < 6) × (rand j ≡ none) × (e ≡ new_error err_unknown))
        ⊎ ((code : Bytes) × (room_code rand ≡ text code)
            × (get_room code m ≢ none)
            × (e ≡ new_error err_room_code_exists)))

-- What HandleCreateRoom does where the rooms of this type have this limit.
abbrev IsServed : (ℕ → Option ℕ) → Bytes → ℕ → Manager → Reply × Manager → Type 0
IsServed rand type max_clients m o =
    ((e : CustomError) × (o ≡ (refused e, m)) × IsRefusal rand type m e)
    ⊎ ((code : Bytes) × (m' : Manager) × (o ≡ (replied code, m'))
        × IsValid m'
        × IsOpened max_clients code m m')

-- What it answers to an input of this type.
abbrev pub IsAnswer : (ℕ → Option ℕ) → Bytes → Manager → Reply × Manager → Type 0
IsAnswer rand type m o =
    ((e : CustomError) × (o ≡ (refused e, m)) × IsRefusal rand type m e)
    ⊎ ((max_clients : ℕ) × (((type ≡ bytes "private") × (max_clients ≡ 2))
          ⊎ ((type ≡ bytes "group") × (max_clients ≡ 10)))
        × (code : Bytes) × (m' : Manager) × (o ≡ (replied code, m'))
        × IsValid m'
        × IsOpened max_clients code m m')

Bound-cases :
    (b : Bound CreateRoomInput)
    → ((e : CustomError) × (b ≡ unbound e)) ⊎ ((input : CreateRoomInput) × (b ≡ bound input))
Bound-cases (unbound e) = inl (e, refl)
Bound-cases (bound input) = inr (input, refl)

drawn_lem :
    (rand : ℕ → Option ℕ) (type : Bytes) (max_clients : ℕ) (m : Manager)
    → InRange rand
    → IsValid m
    → IsServed rand type max_clients m (create_drawn max_clients m (room_code rand))
drawn_lem rand type max_clients m r v = elim (room_code-is_valid rand r) [
  | inl (j, below, missing, f) ↦ inl (
    new_error err_unknown,
    rw f (unfold create_drawn in refl),
    inr (inl (j, below, missing, refl)),
  )
  | inr (code, e, fine) ↦ elim (create_drawn_text max_clients code m v fine) [
    | inl (h, used) ↦ inl (new_error err_room_code_exists, rw e h, inr (inr (code, e, used, refl)))
    | inr (m', h, valid, opened) ↦ inr (code, m', rw e h, valid, opened)
  ]
]

create_room_of_lem :
    (rand : ℕ → Option ℕ) (type : Bytes) (m : Manager)
    → InRange rand
    → IsValid m
    → IsAnswer rand type m (create_room_of rand type m)
unfolding create_room_of
create_room_of_lem rand type m r v = elim (Type-cases type) [
  | inl (e, two) ↦ elim (drawn_lem rand type 2 m r v) [
    | inl (err, h, why) ↦ inl (err, rw two h, why)
    | inr (code, m', h, valid, opened) ↦ inr (2, inl (e, refl), code, m', rw two h, valid, opened)
  ]
  | inr (inl (e, ten)) ↦ elim (drawn_lem rand type 10 m r v) [
    | inl (err, h, why) ↦ inl (err, rw ten h, why)
    | inr (code, m', h, valid, opened) ↦ inr (10, inr (e, refl), code, m', rw ten h, valid, opened)
  ]
  | inr (inr (a, b, zero_clients)) ↦
      inl (new_error err_room_type_invalid, rw zero_clients refl, inl (a, b, refl))
]

-- With random digits in range and a valid manager, HandleCreateRoom never panics. Where BindJSON fails
-- it refuses with that error, and the manager is as it was. Where BindJSON binds an input, it refuses,
-- with the manager as it was, only for a type other than "private" and "group", for a failed reading
-- of the random source, or for a drawn code that is in use, each with its own error. Else it replies with a code that has the
-- form of a room code and was not in use; the manager is valid, this code leads to a new room, for 2
-- clients where the type is "private" and 10 where it is "group", whatever limit the input gives, and
-- every other code leads where it led before.
pub handle_create_room_lem :
    (decode : Bytes → Option (CreateRoomInput × Bytes)) (content_type body : Bytes)
    (rand : ℕ → Option ℕ) (m : Manager)
    → InRange rand
    → IsValid m
    → let o = handle_create_room decode content_type body rand m in
      ((e : CustomError) × (bind_json decode content_type body ≡ unbound e) × (o ≡ (refused e, m)))
      ⊎ ((input : CreateRoomInput) × (bind_json decode content_type body ≡ bound input)
          × IsAnswer rand input.type m o)
unfolding handle_create_room create_bound
handle_create_room_lem decode content_type body rand m r v =
    elim (Bound-cases (bind_json decode content_type body)) [
      | inl (e, h) ↦ inl (e, h, rw h refl)
      | inr (input, h) ↦ inr (input, h, rw h (create_room_of_lem rand input.type m r v))
    ]
