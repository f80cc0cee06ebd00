-- ===== src/Handler/Accounts/Creating.antt =====
-- HandleRegister behind its checks: what an account that was made has in the table.
use hzchat_server.Common.{
  ℕ, suc, ◌≡◌, refl, sym, ◌∙◌, ◌⊎◌, inl, inr, true, false, List, ◌∷◌, none, some, arith, Bool-cases,
  Option-cases,
}
use hzchat_server.Text.{Bytes, bytes}
use hzchat_server.Errs.{new_error, err_unknown}
use hzchat_server.Randx.{Drawn, text, out_of_range, user_nickname}
use hzchat_server.Users
use hzchat_server.Users.{
  User, Queried, row, no_rows, unique_violation, failed, found, find, is_active_name, has_id,
  is_storable, new_user, insert_user, get_user_by_username, is_username,
}
use hzchat_server.Handler.Accounts.{
  Store, Services, Credentials, replied, refused, crashed, ◌>>=◌, reply, tick, or_refuse,
}
use hzchat_server.Handler.Accounts.Sessions.{
  hash_password, draw_nickname, create_user, create_account, nickname_of, from_created,
}
use hzchat_server.Handler.Accounts.Steps.{query_up, query_down}

Drawn-cases :
    (d : Drawn) → ((nickname : Bytes) × (nickname_of d ≡ reply nickname)) ⊎ (d ≡ out_of_range)
unfolding nickname_of
Drawn-cases (text nickname) = inl (nickname, refl)
Drawn-cases Drawn.failed = inl (bytes "User_X", refl)
Drawn-cases out_of_range = inr refl

-- What an INSERT that returned a row has done.
abbrev pub IsInserted : User → List User → User → List User → Type 0
IsInserted u users v users' =
    (v ≡ u)
    × (users' ≡ u ∷ users)
    × (find (is_active_name u.username) users ≡ none)
    × (find (has_id u.id) users ≡ none)

insert_user-inv :
    (u v : User) (users users' : List User)
    → insert_user u users ≡ (row v, users')
    → IsInserted u users v users'
unfolding insert_user
insert_user-inv u v users users' h = elim (Bool-cases (is_storable u)) [
  | inr e ↦ absurd (ground (arith, e, h))
  | inl e ↦ elim (Option-cases (find (has_id u.id) users)) [
    | inr (w, f) ↦ absurd (ground (arith, e, f, h))
    | inl f ↦ elim (Option-cases (find (is_active_name u.username) users)) [
      | inr (w, g) ↦ absurd (ground (arith, e, f, g, h))
      | inl g ↦ (ground (arith, e, f, g, h), ground (arith, e, f, g, h), g, f)
    ]
  ]
]

from_created-inv :
    (w : User) (s v : Store) (u : User) (ticks : ℕ)
    → (from_created
          (insert_user w s.users).0
          (record s { users = (insert_user w s.users).1; ticks = ticks })
        ≡ (replied u, v))
    → IsInserted w s.users u v.users
unfolding from_created
from_created-inv w s v u ticks h = go (insert_user w s.users) refl h
  where
    go :
        (q : Queried User × List User)
        → insert_user w s.users ≡ q
        → (from_created q.0 (record s { users = q.1; ticks = ticks }) ≡ (replied u, v))
        → IsInserted w s.users u v.users
    go (row x, users) e h = insert_user-inv w u s.users v.users (e ∙ cc h)
    go (no_rows, users) e h = absurd (cc h)
    go (unique_violation, users) e h = absurd (cc h)
    go (Users.failed, users) e h = absurd (cc h)

module _ (sv : Services) where
  -- The row of a new account, with the calls that its id and time come from.
  abbrev pub account_at : ℕ → Bytes → Bytes → Bytes → User
  account_at n username password_hash nickname =
      new_user (sv.new_id n) (sv.now (suc n)) username password_hash (some nickname)

  create_user_down :
      (username password_hash nickname : Bytes) (s : Store)
      → sv.fails (suc s.ticks) ≡ true
      → create_user sv username password_hash nickname s
        ≡ (refused (new_error err_unknown), record s { ticks = suc (suc s.ticks) })
  unfolding create_user tick from_created ◌>>=◌
  create_user_down username password_hash nickname s down = ground (
    arith,
    query_down sv
        (λ now.
          insert_user (new_user (sv.new_id s.ticks) now username password_hash (some nickname)))
        (record s { ticks = suc s.ticks }) down,
  )

  create_user_up :
      (username password_hash nickname : Bytes) (s : Store)
      → sv.fails (suc s.ticks) ≡ false
      → create_user sv username password_hash nickname s ≡ (
          let created = insert_user (account_at s.ticks username password_hash nickname) s.users in
          from_created created.0 (record s { users = created.1; ticks = suc (suc s.ticks) }))
  unfolding create_user tick ◌>>=◌
  create_user_up username password_hash nickname s up = ground (
    arith,
    query_up sv
        (λ now.
          insert_user (new_user (sv.new_id s.ticks) now username password_hash (some nickname)))
        (record s { ticks = suc s.ticks }) up,
  )

  create_user-inv :
      (username password_hash nickname : Bytes) (s v : Store) (u : User)
      → create_user sv username password_hash nickname s ≡ (replied u, v)
      → IsInserted (account_at s.ticks username password_hash nickname) s.users u v.users
  create_user-inv username password_hash nickname s v u h =
      elim (Bool-cases (sv.fails (suc s.ticks))) [
        | inl down ↦
            absurd (ground (arith, create_user_down username password_hash nickname s down, h))
        | inr up ↦
            from_created-inv (account_at s.ticks username password_hash nickname) s v u
              (suc (suc s.ticks)) (sym (create_user_up username password_hash nickname s up) ∙ h)
      ]

  create_account_lem :
      (c : Credentials) (s : Store) (password_hash nickname : Bytes)
      → sv.generate_from_password s.ticks c.password ≡ some password_hash
      → nickname_of (user_nickname (sv.random (suc s.ticks))) ≡ reply nickname
      → create_account sv c s
        ≡ create_user sv c.username password_hash nickname (record s { ticks = suc (suc s.ticks) })
  unfolding create_account hash_password draw_nickname tick or_refuse ◌>>=◌
  create_account_lem c s password_hash nickname e d = ground (arith, e, d)

  create_account_unhashed :
      (c : Credentials) (s : Store)
      → sv.generate_from_password s.ticks c.password ≡ none
      → create_account sv c s ≡ (refused (new_error err_unknown), record s { ticks = suc s.ticks })
  unfolding create_account hash_password tick or_refuse ◌>>=◌
  create_account_unhashed c s e = ground (arith, e)

  create_account_crashed :
      (c : Credentials) (s : Store) (password_hash : Bytes)
      → sv.generate_from_password s.ticks c.password ≡ some password_hash
      → user_nickname (sv.random (suc s.ticks)) ≡ out_of_range
      → create_account sv c s ≡ (crashed, record s { ticks = suc (suc s.ticks) })
  unfolding create_account hash_password draw_nickname tick or_refuse nickname_of ◌>>=◌
  create_account_crashed c s password_hash e d = ground (arith, e, d)

  pub create_account-inv :
      (c : Credentials) (s v : Store) (u : User)
      → create_account sv c s ≡ (replied u, v)
      → (password_hash nickname : Bytes) × (sv.generate_from_password s.ticks c.password
          ≡ some password_hash)
        × IsInserted
            (account_at (suc (suc s.ticks)) c.username password_hash nickname)
            s.users
            u
            v.users
  create_account-inv c s v u h =
      elim (Option-cases (sv.generate_from_password s.ticks c.password)) [
        | inl e ↦ absurd (cc (create_account_unhashed c s e, h))
        | inr (password_hash, e) ↦ elim (Drawn-cases (user_nickname (sv.random (suc s.ticks)))) [
          | inr d ↦ absurd (cc (create_account_crashed c s password_hash e d, h))
          | inl (nickname, d) ↦ (
            password_hash,
            nickname,
            e,
            create_user-inv c.username password_hash nickname
                (record s { ticks = suc (suc s.ticks) }) v u
                (sym (create_account_lem c s password_hash nickname e d) ∙ h),
          )
        ]
      ]
