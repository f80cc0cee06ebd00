-- ===== src/Handler/Accounts/Registering.antt =====
-- HandleRegister: what a registration that replied a session went through.
use hzchat_server.Common.{
  ◌≡◌, refl, sym, ◌∙◌, ◌⊎◌, inl, inr, true, false, [], none, some, arith, Bool-cases, Option-cases,
}
use hzchat_server.Text.{Bytes, bytes}
use hzchat_server.Errs.{
  CustomError, new_error, err_already_logged_in, err_invalid_username, err_invalid_password,
}
use hzchat_server.Jwt
use hzchat_server.Http.{Bound, bind_json, bound, unbound}
use hzchat_server.Users.{User, is_username}
use hzchat_server.Handler.Accounts.{
  Store, Services, Request, Credentials, Answer, replied, refused, crashed, Action, ◌>>=◌,
  refuse_if, from_bound, is_bad_password,
}
use hzchat_server.Handler.Accounts.Sessions.{Session, open_session, handle_register, create_account}
use hzchat_server.Handler.Accounts.Login.{
  token_for, session_of, after_session, open_session_lem, open_session_unsigned,
}

pub bind-inv :
    {A B : Type 0} (m : Action A) (k : A → Action B) (s s' : Store) (b : B)
    → (m >>= k) s ≡ (replied b, s')
    → (a : A) × (v : Store) × (m s ≡ (replied a, v)) × (k a v ≡ (replied b, s'))
unfolding ◌>>=◌
bind-inv {A} {B} m k s s' b h = go (m s) refl h
  where
    go :
        (q : Answer A × Store)
        → m s ≡ q
        → (elim q.0 as (λ _. Answer B × Store) [
          | replied a ↦ k a q.1
          | refused e ↦ (refused e, q.1)
          | crashed ↦ (crashed, q.1)
        ])
          ≡ (replied b, s')
        → (a : A) × (v : Store) × (m s ≡ (replied a, v)) × (k a v ≡ (replied b, s'))
    go (replied a, v) e h = (a, v, e, h)
    go (refused x, v) e h = absurd (cc h)
    go (crashed, v) e h = absurd (cc h)

pub Bound-cases :
    {A : Type 0} (b : Bound A) → ((a : A) × (b ≡ bound a)) ⊎ ((e : CustomError) × (b ≡ unbound e))
Bound-cases (bound a) = inl (a, refl)
Bound-cases (unbound e) = inr (e, refl)

module _ (sv : Services) where
  -- What a registration that replied a session went through.
  abbrev pub IsRegistered : Request → Store → Session → Store → Credentials → User → Store → Type 0
  IsRegistered r s session s' c u v =
      (r.identity ≡ none)
      × (bind_json sv.decode_credentials r.content_type r.body ≡ bound c)
      × (create_account sv c s ≡ (replied u, v))
      × (open_session sv u [] (bytes "FREE") v ≡ (replied session, s'))

  register_checked :
      (r : Request) (c : Credentials) (s : Store)
      → r.identity ≡ none
      → bind_json sv.decode_credentials r.content_type r.body ≡ bound c
      → is_username c.username ≡ true
      → is_bad_password c.password ≡ false
      → handle_register sv r s
        ≡ (create_account sv c >>= λ u. open_session sv u [] (bytes "FREE")) s
  unfolding handle_register refuse_if from_bound ◌>>=◌
  register_checked r c s anonymous bound_to named good =
      ground (arith, anonymous, bound_to, named, good)

  register_unchecked :
      (r : Request) (c : Credentials) (s : Store)
      → r.identity ≡ none
      → bind_json sv.decode_credentials r.content_type r.body ≡ bound c
      → (is_username c.username ≡ false) ⊎ (is_bad_password c.password ≡ true)
      → (e : CustomError) × (handle_register sv r s ≡ (refused e, s))
  unfolding handle_register refuse_if from_bound ◌>>=◌
  register_unchecked r c s anonymous bound_to (inl named) =
      (new_error err_invalid_username, ground (arith, anonymous, bound_to, named))
  register_unchecked r c s anonymous bound_to (inr bad) =
      elim (Bool-cases (is_username c.username)) [
        | inl named ↦
            (new_error err_invalid_password, ground (arith, anonymous, bound_to, named, bad))
        | inr named ↦ (new_error err_invalid_username, ground (arith, anonymous, bound_to, named))
      ]

  opened :
      (c : Credentials) (s s' : Store) (session : Session)
      → ((create_account sv c >>= λ u. open_session sv u [] (bytes "FREE")) s
          ≡ (replied session, s'))
      → (u : User) × (v : Store) × (create_account sv c s ≡ (replied u, v))
        × (open_session sv u [] (bytes "FREE") v ≡ (replied session, s'))
  opened c s s' session h =
      bind-inv (create_account sv c) (λ u. open_session sv u [] (bytes "FREE")) s s' session h

  register_unread :
      (r : Request) (s : Store) (e : CustomError)
      → bind_json sv.decode_credentials r.content_type r.body ≡ unbound e
      → (x : CustomError) × (handle_register sv r s ≡ (refused x, s))
  unfolding handle_register refuse_if from_bound ◌>>=◌
  register_unread r s e f = elim (Option-cases r.identity) [
    | inr (i, known) ↦ (new_error err_already_logged_in, ground (arith, known))
    | inl anonymous ↦ (e, ground (arith, anonymous, f))
  ]

  register_known :
      (r : Request) (s : Store) (i : Jwt.Payload)
      → r.identity ≡ some i
      → handle_register sv r s ≡ (refused (new_error err_already_logged_in), s)
  unfolding handle_register refuse_if ◌>>=◌
  register_known r s i e = ground (arith, e)

  pub handle_register-inv :
      (r : Request) (s s' : Store) (session : Session)
      → handle_register sv r s ≡ (replied session, s')
      → (c : Credentials) × (u : User) × (v : Store) × IsRegistered r s session s' c u v
  handle_register-inv r s s' session h = elim (Option-cases r.identity) [
    | inr (i, e) ↦ absurd (cc (register_known r s i e, h))
    | inl e ↦ elim (Bound-cases (bind_json sv.decode_credentials r.content_type r.body)) [
      | inr (x, f) ↦ absurd (cc ((register_unread r s x f).1, h))
      | inl (c, f) ↦ elim (Bool-cases (is_username c.username)) [
        | inr named ↦ absurd (cc ((register_unchecked r c s e f (inl named)).1, h))
        | inl named ↦ elim (Bool-cases (is_bad_password c.password)) [
          | inl bad ↦ absurd (cc ((register_unchecked r c s e f (inr bad)).1, h))
          | inr good ↦
              let (u, v, made, done) =
                opened c s s' session (sym (register_checked r c s e f named good) ∙ h) in
              (c, u, v, (e, f, made, done))
        ]
      ]
    ]
  ]

  pub open_session-inv :
      (user : User) (avatar plan_type : Bytes) (s s' : Store) (session : Session)
      → open_session sv user avatar plan_type s ≡ (replied session, s')
      → (token : Bytes) × (session ≡ session_of sv s user avatar plan_type token)
        × (s' ≡ after_session sv s user)
  open_session-inv user avatar plan_type s s' session h =
      elim (Option-cases (token_for sv s user avatar)) [
        | inl e ↦ absurd (cc (open_session_unsigned sv user avatar plan_type s e, h))
        | inr (token, e) ↦
            let same = sym h ∙ open_session_lem sv user avatar plan_type token s e in
            (token, cc same, cc same)
      ]
