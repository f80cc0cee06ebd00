-- ===== src/Users.antt =====
-- internal/app/db: the table of users (migrations), the statements of queries/user.sql with their
-- wrappers in sqlc/user.sql.go, and IsUniqueViolation. PostgreSQL runs the statements; what they say is
-- written out over a list of rows, newest first. That a statement does not reach the database is decided
-- by its caller.
pub mod Laws
use hzchat_server.Common.{
  ℕ, Bool, true, false, ◌&&◌, ◌||◌, List, [], ◌∷◌, Option, none, some, ltb, leb, ◌==◌,
  if◌then◌else◌, length, map, not,
}
use hzchat_server.Text.{Bytes, bytes, bytes_eq, rune_count, all_runes}

-- User of sqlc/models.go; none is NULL, times are nanoseconds since the epoch.
pub record User : Type 0 where
  pub id : Bytes
  pub username : Bytes
  pub password_hash : Bytes
  pub email : Option Bytes
  pub nickname : Option Bytes
  pub avatar_url : Option Bytes
  pub plan_type : Bytes
  pub plan_expires_at : Option ℕ
  pub created_at : ℕ
  pub updated_at : ℕ
  pub last_login_at : Option ℕ
  pub deleted_at : Option ℕ

-- What a query returns: a row, no row, a violated unique constraint, or another error.
pub data Queried {ℓ} (A : Type ℓ) : Type ℓ where
  row : A → Queried A
  no_rows : Queried A
  unique_violation : Queried A
  failed : Queried A

-- IsUniqueViolation of the error.
abbrev pub is_unique_violation {ℓ} : {A : Type ℓ} → Queried A → Bool
is_unique_violation unique_violation = true
is_unique_violation _ = false

-- deleted_at IS NULL
abbrev pub is_active : User → Bool
is_active u = elim u.deleted_at [ none ↦ true | some _ ↦ false ]

abbrev pub has_id : Bytes → User → Bool
has_id id u = bytes_eq u.id id

abbrev pub is_active_id : Bytes → User → Bool
is_active_id id u = is_active u && has_id id u

abbrev pub is_active_name : Bytes → User → Bool
is_active_name username u = is_active u && bytes_eq u.username username

-- The first row that meets the condition.
unfoldable pub find {ℓ} : {A : Type ℓ} → (A → Bool) → List A → Option A
find p [] = none
find p (a ∷ rest) = if p a then some a else find p rest

abbrev pub found {ℓ} : {A : Type ℓ} → Option A → Queried A
found none = no_rows
found (some a) = row a

-- The characters of [a-z0-9_].
unfoldable pub is_username_char : ℕ → Bool
is_username_char c = leb b'a' c && leb c b'z' || (leb b'0' c && leb c b'9' || c == b'_')

-- ^[a-z0-9_]{4,20}$, which the constraint username_check and the handlers' regexp share.
unfoldable pub is_username : Bytes → Bool
unfolding is_username_char
is_username s = leb 4 (length s) && leb (length s) 20 && all_runes is_username_char s

-- The widths of the columns, in characters, and username_check.
unfoldable pub is_storable : User → Bool
is_storable u =
    is_username u.username
    && (leb (rune_count u.password_hash) 255
        && elim u.nickname [ none ↦ true | some nickname ↦ leb (rune_count nickname) 50 ])

-- The row that CreateUser inserts.
abbrev pub new_user : Bytes → ℕ → Bytes → Bytes → Option Bytes → User
new_user id now username password_hash nickname = record {
  id = id;
  username = username;
  password_hash = password_hash;
  email = none;
  nickname = nickname;
  avatar_url = none;
  plan_type = bytes "FREE";
  plan_expires_at = none;
  created_at = now;
  updated_at = now;
  last_login_at = none;
  deleted_at = none;
}

-- INSERT of a row under the constraints: username_check and the widths, the primary key, and
-- idx_users_username_active.
unfoldable pub insert_user : User → List User → Queried User × List User
insert_user u users =
    if not (is_storable u) then (failed, users) else (elim (find (has_id u.id) users) [
      | some _ ↦ (unique_violation, users)
      | none ↦ elim (find (is_active_name u.username) users) [
        | some _ ↦ (unique_violation, users)
        | none ↦ (row u, u ∷ users)
      ]
    ])

-- GetUserByID; none is an id that is NULL.
unfoldable pub get_user_by_id : Option Bytes → List User → Queried User
get_user_by_id none users = no_rows
get_user_by_id (some id) users = found (find (is_active_id id) users)

-- GetUserByUsername
unfoldable pub get_user_by_username : Bytes → List User → Queried User
get_user_by_username username users = found (find (is_active_name username) users)

-- UPDATE ... WHERE id = $1 AND deleted_at IS NULL
unfoldable pub update_where : Option Bytes → (User → User) → List User → List User
update_where none f users = users
update_where (some id) f users = map (λ u. if is_active_id id u then f u else u) users

-- UpdateLastLogin
unfoldable pub update_last_login : Option Bytes → ℕ → List User → List User
update_last_login id now = update_where id (λ u. record u { last_login_at = some now })

abbrev pub with_password : Bytes → ℕ → User → User
with_password password_hash now u = record u { password_hash = password_hash; updated_at = now }

-- The end of UpdateUserPassword, by whether a row is there; without one the statement does nothing.
unfoldable pub set_password :
    Option Bytes → Bytes → ℕ → List User → Queried User → Queried (Unit {0}) × List User
set_password id password_hash now users (row _) =
    if leb (rune_count password_hash) 255
    then (row tt, update_where id (with_password password_hash now) users)
    else (failed, users)
set_password id password_hash now users _ = (row tt, users)

-- UpdateUserPassword
unfoldable pub update_user_password :
    Option Bytes → Bytes → ℕ → List User → Queried (Unit {0}) × List User
unfolding set_password
update_user_password id password_hash now users =
    set_password id password_hash now users (get_user_by_id id users)

abbrev pub with_profile : Bytes → Bytes → ℕ → User → User
with_profile nickname avatar_url now u = record u {
  nickname = some nickname;
  avatar_url = some avatar_url;
  updated_at = now;
}

-- The end of UpdateUserProfile: the row that it returns is the updated one.
unfoldable pub set_profile :
    Option Bytes → Bytes → Bytes → ℕ → List User → Queried User → Queried User × List User
set_profile id nickname avatar_url now users (row u) =
    if leb (rune_count nickname) 50
    then (
      row (with_profile nickname avatar_url now u),
      update_where id (with_profile nickname avatar_url now) users,
    )
    else (failed, users)
set_profile id nickname avatar_url now users _ = (no_rows, users)

-- UpdateUserProfile
unfoldable pub update_user_profile :
    Option Bytes → Bytes → Bytes → ℕ → List User → Queried User × List User
unfolding set_profile
update_user_profile id nickname avatar_url now users =
    set_profile id nickname avatar_url now users (get_user_by_id id users)
