-- ===== src/Handler/Accounts/Tests.antt =====
-- A registration in the empty table, and requests of one account.
use hzchat_server.Common.{
  ◌⊎◌, ◌≡◌, refl, sym, ap, ◌∙◌, Bool, true, false, List, [], ◌∷◌, ◌++◌, Option, none,
}
use mathlib.Core.List.{Memᴰ}
use mathlib.Core.List.Memᴰ
use hzchat_server.Text.{Bytes, bytes, bytes_eq, has_prefix, rune_count, runes, bytes_eq_iff}
use hzchat_server.Errs.{new_error, err_invalid_credentials}
use hzchat_server.Randx.{user_nickname, draw_chars, char_at, base62_chars}
use hzchat_server.Jwt
use hzchat_server.Jwt.{second, generate_token}
use hzchat_server.Http.{more, bind_json, bind_decoded, bound}
use hzchat_server.Users.{
  User, is_username, is_username_char, is_storable, find, insert_user, update_last_login,
  update_where, get_user_by_id, update_user_password, update_user_profile,
}
use hzchat_server.Users.Laws.{IsValid}
use hzchat_server.Handler.Assets.{normalize_asset_key}
use hzchat_server.Handler.Accounts.{
  Store, Request, ChangePasswordInput, UpdateProfileInput, replied, refused, ◌>>=◌, refuse_if,
  or_refuse, from_bound, from_row, tick, start, is_bad_password, query, query_at, touch,
  issue_token,
}
use hzchat_server.Handler.Accounts.Sessions.{
  Session, nickname_of, from_created, create_user, hash_password, draw_nickname, create_account,
  open_session, handle_register, handle_login,
}
use hzchat_server.Handler.Accounts.Passwords.{registered_identity, handle_change_password}
use hzchat_server.Handler.Accounts.Profiles.{
  from_normalized, start_if, UpdatedProfile, handle_update_user_profile,
}
use hzchat_server.Handler.Accounts.Login.{IsLoginReply, Authenticates, handle_login_lem}
use hzchat_server.Handler.Accounts.Fixture.{
  credentials, hash_of, services, anonymous, ann, request, empty, filled, reply_of,
}
use hzchat_server.Handler.Accounts.Returning.{register_login}
use hzchat_server.Handler.Accounts.Serving.{
  Event, registration, login, updating, changing, finishing, serve_all, serve_all-IsValid,
}
use hzchat_server.Handler.Accounts.Serving.Hashes.{HasHash}
use hzchat_server.Handler.Accounts.Serving.Passwords.{IsOwnChange, serve_all-HasHash}
use hzchat_server.Handler.Accounts.Changing.{IsChanged, handle_change_password_lem}
use hzchat_server.Handler.Accounts.Updating.{IsUpdated, handle_update_user_profile_lem}

-- What a registration in the empty table ends in.
abbrev nobody : Session
nobody = record {
  token = [];
  user = record {
    id = [];
    nickname = [];
    avatar = [];
    user_type = [];
    plan_type = [];
    last_login_at = none;
  };
}

abbrev session : Session
session = reply_of nobody (handle_register services anonymous empty).0

abbrev after_registration : Store
after_registration = (handle_register services anonymous empty).1

registers : handle_register services anonymous empty ≡ (replied session, after_registration)
unfolding handle_register ◌>>=◌ refuse_if from_bound bind_json more has_prefix is_username
    is_bad_password rune_count create_account hash_password tick or_refuse draw_nickname nickname_of
    user_nickname char_at base62_chars create_user from_created open_session issue_token query
    query_at touch bind_decoded generate_token draw_chars bytes_eq runes find insert_user
    is_storable is_username_char update_last_login update_where
registers = refl

after_up : services.fails after_registration.ticks ≡ false
after_up = refl

register_login_example :
    (again : Session) × (s'' : Store) × (handle_login services anonymous after_registration
      ≡ (replied again, s''))
    × (again.user.id ≡ session.user.id)
    × (again.user.nickname ≡ session.user.nickname)
register_login_example =
    register_login services (λ n password hash e. (bytes_eq_iff hash (hash_of password)).1 (cc e))
      (λ claims secret. (claims.id ++ secret, refl)) anonymous anonymous empty after_registration
      session registers refl refl after_up

reads_credentials :
    bind_json services.decode_credentials anonymous.content_type anonymous.body ≡ bound credentials
unfolding bind_json bind_decoded more has_prefix
reads_credentials = refl

handle_login_lem_example :
    ((user : User) × Authenticates services filled credentials user
      × IsLoginReply services anonymous filled user)
    ⊎ (((user : User) → ¬ Authenticates services filled credentials user)
        × (handle_login services anonymous filled
            ≡ (refused (new_error err_invalid_credentials), record filled { ticks = 1 })))
handle_login_lem_example =
    handle_login_lem services anonymous credentials filled (refl, reads_credentials) refl

filled-IsValid : IsValid filled.users
unfolding find
filled-IsValid = (refl, λ _. refl, tt)

abbrev events : List Event
events = registration anonymous ∷ login anonymous ∷ changing request ∷ finishing 0 ∷ []

serve_all-IsValid_example : IsValid (serve_all services events filled).users
serve_all-IsValid_example = serve_all-IsValid services events filled filled-IsValid

abbrev foreign_events : List Event
foreign_events = changing anonymous ∷ updating request ∷ []

abbrev identity_of : Event → Option Jwt.Payload
identity_of (changing r) = r.identity
identity_of _ = none

abbrev is_changing : Event → Bool
is_changing (changing r) = true
is_changing _ = false

are_foreign :
    (r : Request)
    → Memᴰ (changing r) foreign_events
    → ¬ IsOwnChange services (7 ∷ []) (hash_of (bytes "secret1")) r
are_foreign r m (i, input, known, _, _, _, _) = elim m [
  | Memᴰ.head e ↦ absurd (cc (sym (ap identity_of e) ∙ known))
  | Memᴰ.tail later ↦ elim later [
    | Memᴰ.head e ↦ absurd (cc (ap is_changing e))
    | Memᴰ.tail none_left ↦ Memᴰ.not-nil none_left
  ]
]

ann_has_hash : HasHash (7 ∷ []) (hash_of (bytes "secret1")) filled.users
unfolding find bytes_eq
ann_has_hash = (ann, refl, refl)

serve_all-HasHash_example :
    HasHash (7 ∷ []) (hash_of (bytes "secret1")) (serve_all services foreign_events filled).users
serve_all-HasHash_example =
    serve_all-HasHash services (7 ∷ []) (hash_of (bytes "secret1")) foreign_events filled
      are_foreign ann_has_hash

abbrev new_token : Bytes
new_token = reply_of [] (handle_change_password services request filled).0

abbrev after_change : Store
after_change = (handle_change_password services request filled).1

changes : handle_change_password services request filled ≡ (replied new_token, after_change)
unfolding handle_change_password ◌>>=◌ refuse_if registered_identity bytes_eq from_bound bind_json
    more has_prefix is_bad_password rune_count query from_row get_user_by_id find hash_password
    or_refuse update_user_password issue_token generate_token
changes = refl

handle_change_password_lem_example :
    (i : Jwt.Payload) × (input : ChangePasswordInput) × (id : Bytes) × (user : User)
    × (hash : Bytes) × IsChanged services request filled after_change new_token i input id user hash
handle_change_password_lem_example =
    handle_change_password_lem services request filled after_change new_token changes

abbrev no_profile : UpdatedProfile
no_profile = record { user = nobody.user; token = none }

abbrev updated_profile : UpdatedProfile
updated_profile = reply_of no_profile (handle_update_user_profile services request filled).0

abbrev after_update : Store
after_update = (handle_update_user_profile services request filled).1

updates :
    handle_update_user_profile services request filled ≡ (replied updated_profile, after_update)
unfolding handle_update_user_profile ◌>>=◌ refuse_if registered_identity bytes_eq from_bound
    bind_json more has_prefix from_normalized normalize_asset_key query from_row get_user_by_id find
    update_user_profile rune_count start_if start
updates = refl

handle_update_user_profile_lem_example :
    (i : Jwt.Payload) × (input : UpdateProfileInput) × (avatar_key id : Bytes) × (user : User)
    × IsUpdated services request filled after_update updated_profile i input avatar_key id user
handle_update_user_profile_lem_example =
    handle_update_user_profile_lem services request filled after_update updated_profile updates
