-- ===== src/Handler/Accounts.antt =====
-- The handlers of internal/handler that keep accounts, auth_handler.go and user_handler.go: what they
-- share. A handler passes the state of the database on and ends in a response, an error response, or a
-- panic; what was written stays written.
pub mod Fixture
mod Tests
pub mod Sessions
pub mod Passwords
pub mod Profiles
pub mod Steps
pub mod Login
pub mod Creating
pub mod Registering
pub mod Returning
pub mod Replying
pub mod Keeping
pub mod Serving
pub mod Changing
pub mod Updating
use hzchat_server.Common.{
  ℕ, suc, Bool, true, false, ◌||◌, List, [], ◌∷◌, ◌++◌, Option, none, some, ltb, if◌then◌else◌,
}
use hzchat_server.Text.{Bytes, bytes, rune_count}
use hzchat_server.Errs.{CustomError, new_error, err_unknown}
use hzchat_server.Jwt
use hzchat_server.Jwt.{generate_token, user_identity_expiration}
use hzchat_server.Http.{Bound, bound, unbound}
use hzchat_server.Users.{User, Queried, row, no_rows, unique_violation, failed, update_last_login}

-- What a handler starts with `go`: an UpdateLastLogin, or a Delete of the public storage.
pub data Job : Type 0 where
  touch_login : Bytes → Job
  delete_object : Bytes → Job

-- The table of users, the number of calls of the services below, and the goroutines that were started.
pub record Store : Type 0 where
  pub users : List User
  pub ticks : ℕ
  pub jobs : List Job

pub record Credentials : Type 0 where
  pub username : Bytes
  pub password : Bytes

pub record ChangePasswordInput : Type 0 where
  pub old_password : Bytes
  pub new_password : Bytes

pub record UpdateProfileInput : Type 0 where
  pub nickname : Bytes
  pub avatar_url : Bytes

-- What the code calls and this repository does not hold: the database's connection (whether a call
-- fails), gen_random_uuid and NOW, the clock, bcrypt, crypto/rand, the signing of tokens, the text form
-- of uuids, the format of times, and encoding/json; and two fields of the configuration. The first
-- argument is the number of the call.
pub record Services : Type 0 where
  pub fails : ℕ → Bool
  pub new_id : ℕ → Bytes
  pub now : ℕ → ℕ
  pub generate_from_password : ℕ → Bytes → Option Bytes
  pub compare_hash_and_password : Bytes → Bytes → Bool
  pub random : ℕ → ℕ → Option ℕ
  pub sign : Jwt.Payload → Bytes → Option Bytes
  pub scan_uuid : Bytes → Option Bytes
  pub uuid_string : Bytes → Bytes
  pub format_time : ℕ → Bytes
  pub decode_credentials : Bytes → Option (Credentials × Bytes)
  pub decode_change_password : Bytes → Option (ChangePasswordInput × Bytes)
  pub decode_update_profile : Bytes → Option (UpdateProfileInput × Bytes)
  pub jwt_secret : Bytes
  pub s3_public_base_url : Bytes

-- A request: the identity that the middleware found, the header Content-Type, and the body.
pub record Request : Type 0 where
  pub identity : Option Jwt.Payload
  pub content_type : Bytes
  pub body : Bytes

pub data Answer {ℓ} (A : Type ℓ) : Type ℓ where
  replied : A → Answer A
  refused : CustomError → Answer A
  crashed : Answer A

abbrev pub Action : Type 0 → Type 0
Action A = Store → Answer A × Store

infixl 5 ◌>>=◌ ◌>>◌
unfoldable pub ◌>>=◌ : {A B : Type 0} → Action A → (A → Action B) → Action B
◌>>=◌ m f s =
    let (o, s') = m s in
    elim o [ replied a ↦ f a s' | refused e ↦ (refused e, s') | crashed ↦ (crashed, s') ]

abbrev pub ◌>>◌ : {A B : Type 0} → Action A → Action B → Action B
m >> k = m >>= λ _. k

abbrev pub reply : {A : Type 0} → A → Action A
reply a s = (replied a, s)

abbrev pub refuse : {A : Type 0} → ℕ → Action A
refuse code s = (refused (new_error code), s)

unfoldable pub refuse_if : Bool → ℕ → Action (Unit {0})
refuse_if test code s = (if test then refused (new_error code) else replied tt, s)

unfoldable pub or_refuse : {A : Type 0} → ℕ → Option A → Action A
or_refuse code none s = (refused (new_error code), s)
or_refuse code (some a) s = (replied a, s)

unfoldable pub from_bound : {A : Type 0} → Bound A → Action A
from_bound (bound a) s = (replied a, s)
from_bound (unbound e) s = (refused e, s)

-- The row of a statement; whatever else it returns is this error.
unfoldable pub from_row : {A : Type 0} → ℕ → Queried A → Action A
from_row code (row a) = reply a
from_row code _ = refuse code

-- The next call of a service.
unfoldable pub tick : Action ℕ
tick s = (replied s.ticks, record s { ticks = suc s.ticks })

unfoldable pub start : Job → Action (Unit {0})
start job s = (replied tt, record s { jobs = s.jobs ++ job ∷ [] })

-- passwordLen < 6 || passwordLen > 50, in runes.
unfoldable pub is_bad_password : Bytes → Bool
is_bad_password password = ltb (rune_count password) 6 || ltb 50 (rune_count password)

-- The String of a pgtype.Text, which is empty for NULL.
abbrev pub or_empty : Option Bytes → Bytes
or_empty none = []
or_empty (some s) = s

-- The claims that the handlers fill in.
abbrev pub claims_of : Bytes → Bytes → Bytes → Bytes → Jwt.Payload
claims_of id user_type nickname avatar = record {
  expires_at = 0;
  issued_at = 0;
  issuer = [];
  id = id;
  code = [];
  user_type = user_type;
  nickname = nickname;
  avatar = avatar;
}

module _ (sv : Services) where
  -- A statement at the n-th call; true where it does not reach the database.
  unfoldable pub query_at :
      {A : Type 0} → (ℕ → List User → Queried A × List User) → ℕ → Bool → Action (Queried A)
  query_at q n true s = (replied failed, s)
  query_at q n false s =
      (replied (q (sv.now n) s.users).0, record s { users = (q (sv.now n) s.users).1 })

  unfoldable pub query : {A : Type 0} → (ℕ → List User → Queried A × List User) → Action (Queried A)
  unfolding tick query_at
  query q = do n ← tick; query_at q n (sv.fails n)

  -- A query that only reads.
  abbrev pub select : {A : Type 0} → (List User → Queried A) → Action (Queried A)
  select q = query (λ _ users. (q users, users))

  -- UpdateLastLogin, whose error is only logged.
  unfoldable pub touch : Option Bytes → Action (Unit {0})
  touch id = do query (λ now users. (row tt, update_last_login id now users)); reply tt

  -- jwt.GenerateToken for 24 hours, whose failure is ErrUnknown.
  unfoldable pub issue_token : Jwt.Payload → Action Bytes
  issue_token payload = do
    n ← tick
    or_refuse err_unknown
        (generate_token sv.sign (sv.now n) payload sv.jwt_secret user_identity_expiration).1
