-- ===== src/Handler/Accounts/Login.antt =====
-- HandleLogin: who gets a session, and what everyone else is told.
use hzchat_server.Common.{
  ◌⊎◌, suc, ◌≡◌, ap, ◌∙◌, inl, inr, true, false, Option, none, some, arith, Bool-cases,
  Option-cases,
}
use hzchat_server.Text.{Bytes, bytes}
use hzchat_server.Errs.{new_error, err_unknown, err_invalid_credentials}
use hzchat_server.Jwt.{generate_token, user_identity_expiration}
use hzchat_server.Http.{bind_json, bound}
use hzchat_server.Users.{User, row, found, find, is_active_name, get_user_by_username}
use hzchat_server.Handler.Accounts.{
  Store, Services, Request, Credentials, replied, refused, ◌>>=◌, refuse_if, from_bound, from_row,
  tick, query, issue_token, or_refuse, or_empty, claims_of,
}
use hzchat_server.Handler.Accounts.Steps.{touched, touch_lem}
use hzchat_server.Handler.Accounts.Profiles.{avatar_of}
use hzchat_server.Handler.Accounts.Sessions.{Session, open_session, handle_login}

module _ (sv : Services) where
  -- What GenerateToken makes of the claims, at the call behind that of the update.
  abbrev pub token_for : Store → User → Bytes → Option Bytes
  token_for s user avatar =
      (generate_token sv.sign (sv.now (suc s.ticks))
        (claims_of (sv.uuid_string user.id) (bytes "registered") (or_empty user.nickname) avatar)
        sv.jwt_secret user_identity_expiration).1

  abbrev pub session_of : Store → User → Bytes → Bytes → Bytes → Session
  session_of s user avatar plan_type token = record {
    token = token;
    user = record {
      id = sv.uuid_string user.id;
      nickname = or_empty user.nickname;
      avatar = avatar;
      user_type = bytes "registered";
      plan_type = plan_type;
      last_login_at = some (sv.format_time (sv.now (suc (suc s.ticks))));
    };
  }

  abbrev pub after_session : Store → User → Store
  after_session s user = record s { users = touched sv s user.id; ticks = suc (suc (suc s.ticks)) }

  pub open_session_lem :
      (user : User) (avatar plan_type token : Bytes) (s : Store)
      → token_for s user avatar ≡ some token
      → open_session sv user avatar plan_type s
        ≡ (replied (session_of s user avatar plan_type token), after_session s user)
  unfolding open_session issue_token or_refuse tick ◌>>=◌
  open_session_lem user avatar plan_type token s h = ground (arith, touch_lem sv user.id s, h)

  -- The request is anonymous and carries these credentials.
  abbrev pub Presents : Request → Credentials → Type 0
  Presents r c =
      (r.identity ≡ none) × (bind_json sv.decode_credentials r.content_type r.body ≡ bound c)

  -- The account of these credentials.
  abbrev pub Authenticates : Store → Credentials → User → Type 0
  Authenticates s c user =
      (get_user_by_username c.username s.users ≡ row user)
      × (sv.compare_hash_and_password user.password_hash c.password ≡ true)

  abbrev pub ticked : Store → Store
  ticked s = record s { ticks = suc s.ticks }

  pub login_found :
      (r : Request) (c : Credentials) (user : User) (s : Store)
      → Presents r c
      → sv.fails s.ticks ≡ false
      → Authenticates s c user
      → handle_login sv r s ≡ open_session sv user (avatar_of sv user) user.plan_type (ticked s)
  unfolding handle_login refuse_if from_bound query from_row ◌>>=◌
  login_found r c user s (anonymous, bound_to) up (there, right) =
      ground (arith, anonymous, bound_to, up, there, right)

  login_refused :
      (r : Request) (c : Credentials) (s : Store)
      → Presents r c
      → sv.fails s.ticks ≡ false
      → ((user : User) → ¬ Authenticates s c user)
      → handle_login sv r s ≡ (refused (new_error err_invalid_credentials), ticked s)
  unfolding handle_login refuse_if from_bound query from_row get_user_by_username ◌>>=◌
  login_refused r c s (anonymous, bound_to) up nobody =
      elim (Option-cases (find (is_active_name c.username) s.users)) [
        | inl missing ↦ ground (arith, anonymous, bound_to, up, missing)
        | inr (user, there) ↦
            elim (Bool-cases (sv.compare_hash_and_password user.password_hash c.password)) [
              | inl right ↦ absurd (nobody user (ap found there, right))
              | inr wrong ↦ ground (arith, anonymous, bound_to, up, there, wrong)
            ]
      ]

  -- Where the token is not signed.
  abbrev pub after_unsigned : Store → User → Store
  after_unsigned s user = record s { users = touched sv s user.id; ticks = suc (suc s.ticks) }

  pub open_session_unsigned :
      (user : User) (avatar plan_type : Bytes) (s : Store)
      → token_for s user avatar ≡ none
      → open_session sv user avatar plan_type s
        ≡ (refused (new_error err_unknown), after_unsigned s user)
  unfolding open_session issue_token or_refuse tick ◌>>=◌
  open_session_unsigned user avatar plan_type s h = ground (arith, touch_lem sv user.id s, h)

  -- A session of the user, or the error of a token that is not signed.
  abbrev pub IsLoginReply : Request → Store → User → Type 0
  IsLoginReply r s user =
      ((token : Bytes) × (token_for (ticked s) user (avatar_of sv user) ≡ some token)
        × (handle_login sv r s ≡ (
          replied (session_of (ticked s) user (avatar_of sv user) user.plan_type token),
          after_session (ticked s) user,
        )))
      ⊎ ((token_for (ticked s) user (avatar_of sv user) ≡ none)
          × (handle_login sv r s
              ≡ (refused (new_error err_unknown), after_unsigned (ticked s) user)))

  login_opens :
      (r : Request) (c : Credentials) (user : User) (s : Store)
      → Presents r c
      → sv.fails s.ticks ≡ false
      → Authenticates s c user
      → IsLoginReply r s user
  login_opens r c user s given up h =
      elim (Option-cases (token_for (ticked s) user (avatar_of sv user))) [
        | inl e ↦ inr (
          e,
          login_found r c user s given up h
              ∙ open_session_unsigned user (avatar_of sv user) user.plan_type (ticked s) e,
        )
        | inr (token, e) ↦ inl (
          token,
          e,
          login_found r c user s given up h
              ∙ open_session_lem user (avatar_of sv user) user.plan_type token (ticked s) e,
        )
      ]

  authenticates :
      (s : Store) (c : Credentials)
      → ((user : User) × Authenticates s c user) ⊎ ((user : User) → ¬ Authenticates s c user)
  unfolding get_user_by_username
  authenticates s c = elim (Option-cases (find (is_active_name c.username) s.users)) [
    | inl missing ↦ inr λ user (there, _). cc (ap found missing, there)
    | inr (user, there) ↦
        elim (Bool-cases (sv.compare_hash_and_password user.password_hash c.password)) [
          | inl right ↦ inl (user, (ap found there, right))
          | inr wrong ↦
              inr λ other (other_there, right). ground (arith, there, other_there, wrong, right)
        ]
  ]

  -- HandleLogin for an anonymous request with credentials, where the query reaches the database: either
  -- the password fits the active account of the username, and then the response is a session of this
  -- account, or ErrUnknown if its token is not signed, with nothing changed but its last login; or there
  -- is no such account, and then the response is ErrInvalidCredentials and no account changes, whether
  -- the username is unknown or the password is wrong.
  pub handle_login_lem :
      (r : Request) (c : Credentials) (s : Store)
      → Presents r c
      → sv.fails s.ticks ≡ false
      → ((user : User) × Authenticates s c user × IsLoginReply r s user)
        ⊎ (((user : User) → ¬ Authenticates s c user)
            × (handle_login sv r s ≡ (refused (new_error err_invalid_credentials), ticked s)))
  handle_login_lem r c s given up = elim (authenticates s c) [
    | inl (user, h) ↦ inl (user, h, login_opens r c user s given up h)
    | inr nobody ↦ inr (nobody, login_refused r c s given up nobody)
  ]
