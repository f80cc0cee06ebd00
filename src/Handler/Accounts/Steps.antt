-- ===== src/Handler/Accounts/Steps.antt =====
-- The services that the handlers of accounts call, one step each.
use hzchat_server.Common.{
  ℕ, suc, ◌≡◌, refl, true, false, List, some, arith, Bool-cases, inl, inr, if◌then◌else◌,
}
use hzchat_server.Text.{Bytes}
use hzchat_server.Users.{User, Queried, row, failed, update_last_login}
use hzchat_server.Handler.Accounts.{◌>>=◌, Store, Services, replied, query, query_at, touch}

module _ (sv : Services) where
  pub query_up :
      {A : Type 0} (q : ℕ → List User → Queried A × List User) (s : Store)
      → sv.fails s.ticks ≡ false
      → query sv q s ≡ (
        replied (q (sv.now s.ticks) s.users).0,
        record s { users = (q (sv.now s.ticks) s.users).1; ticks = suc s.ticks },
      )
  unfolding query ◌>>=◌
  query_up q s up = rw (up, query_at) refl

  pub query_down :
      {A : Type 0} (q : ℕ → List User → Queried A × List User) (s : Store)
      → sv.fails s.ticks ≡ true
      → query sv q s ≡ (replied failed, record s { ticks = suc s.ticks })
  unfolding query ◌>>=◌
  query_down q s down = rw (down, query_at) refl

  -- Where the update of last_login_at reaches the database.
  abbrev pub touched : Store → Bytes → List User
  touched s id =
      if sv.fails s.ticks then s.users else update_last_login (some id) (sv.now s.ticks) s.users

  pub touch_lem :
      (id : Bytes) (s : Store)
      → touch sv (some id) s ≡ (replied tt, record s { users = touched s id; ticks = suc s.ticks })
  unfolding touch ◌>>=◌
  touch_lem id s = elim (Bool-cases (sv.fails s.ticks)) [
    | inl down ↦ ground (
      arith,
      down,
      query_down (λ now users. (row tt, update_last_login (some id) now users)) s down,
    )
    | inr up ↦
        ground
          (arith, up, query_up (λ now users. (row tt, update_last_login (some id) now users)) s up)
  ]
