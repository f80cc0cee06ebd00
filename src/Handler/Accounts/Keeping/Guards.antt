-- ===== src/Handler/Accounts/Keeping/Guards.antt =====
-- What is known behind a check of a handler, when what follows it keeps the table.
use hzchat_server.Common.{
  ℕ, suc, ◌≡◌, refl, inl, inr, Bool, true, false, List, Option, none, some, Bool-cases,
}
use hzchat_server.Text.{bytes, bytes_eq}
use hzchat_server.Jwt
use hzchat_server.Http.{Bound, bound, unbound}
use hzchat_server.Users.{User, Queried, row, no_rows, unique_violation, failed}
use hzchat_server.Handler.Accounts.{
  Store, Services, Action, ◌>>=◌, ◌>>◌, refuse_if, from_row, from_bound, query, query_at, select,
  tick,
}
use hzchat_server.Handler.Accounts.Passwords.{registered_identity}
use hzchat_server.Handler.Accounts.Keeping.{Keeps}

module _ (P : List User → Type 0) where
  refuse_if-explicit :
      {B : Type 0} (test : Bool) (code : ℕ) (k : Action B)
      → (test ≡ false → Keeps P k)
      → Keeps P (refuse_if test code >> k)
  unfolding refuse_if ◌>>=◌
  refuse_if-explicit true code k next = record { kept = λ s p. p }
  refuse_if-explicit false code k next = record { kept = λ s p. (next refl).kept s p }

  pub refuse_if-then :
      {B : Type 0} {test : Bool} (code : ℕ) {k : Action B}
      → (test ≡ false → Keeps P k)
      → Keeps P (refuse_if test code >>= λ _. k)
  refuse_if-then {B} {test} code {k} next = refuse_if-explicit test code k next

  pub from_bound-then :
      {A B : Type 0} (b : Bound A) {k : A → Action B}
      → ((a : A) → b ≡ bound a → Keeps P (k a))
      → Keeps P (from_bound b >>= k)
  unfolding from_bound ◌>>=◌
  from_bound-then (bound a) next = record { kept = λ s p. (next a refl).kept s p }
  from_bound-then (unbound e) next = record { kept = λ s p. p }

  pub from_row-then :
      {A B : Type 0} (code : ℕ) (q : Queried A) {k : A → Action B}
      → ((a : A) → q ≡ row a → Keeps P (k a))
      → Keeps P (from_row code q >>= k)
  unfolding from_row ◌>>=◌
  from_row-then code (row a) next = record { kept = λ s p. (next a refl).kept s p }
  from_row-then code no_rows next = record { kept = λ s p. p }
  from_row-then code unique_violation next = record { kept = λ s p. p }
  from_row-then code failed next = record { kept = λ s p. p }

  pub registered_identity-then :
      {B : Type 0} (o : Option Jwt.Payload) {k : Jwt.Payload → Action B}
      → ((i : Jwt.Payload)
          → o ≡ some i
          → bytes_eq i.user_type (bytes "registered") ≡ true
          → Keeps P (k i))
      → Keeps P (registered_identity o >>= k)
  unfolding registered_identity ◌>>=◌
  registered_identity-then none next = record { kept = λ s p. p }
  registered_identity-then (some i) next =
      elim (Bool-cases (bytes_eq i.user_type (bytes "registered"))) [
        | inl e ↦ record { kept = λ s p. rw (e) ((next i refl e).kept s p) }
        | inr e ↦ record { kept = λ s p. rw (e) p }
      ]

  -- What is read from a table with P.
  select-explicit :
      {A B : Type 0} (sv : Services) (q : List User → Queried A) (k : Queried A → Action B)
      → ((users : List User) → P users → Keeps P (k (q users)))
      → Keeps P (k failed)
      → Keeps P (select sv q >>= k)
  unfolding query query_at ◌>>=◌ tick
  select-explicit sv q k read down = record { kept = λ s p. at s p (sv.fails s.ticks) }
    where
      at :
          (s : Store)
          → P s.users
          → (broken : Bool)
          → P
              ((query_at sv (λ _ users. (q users, users)) s.ticks broken >>= k)
                (record s { ticks = suc s.ticks })).1.users
      at s p true = down.kept (record s { ticks = suc s.ticks }) p
      at s p false = (read s.users p).kept (record s { ticks = suc s.ticks }) p

  pub select-then :
      {A B : Type 0} (sv : Services) (q : List User → Queried A) (k : Queried A → Action B)
      → ((users : List User) → P users → Keeps P (k (q users)))
      → Keeps P (k failed)
      → Keeps P (query sv (λ _ users. (q users, users)) >>= k)
  select-then sv q k read down = select-explicit sv q k read down
