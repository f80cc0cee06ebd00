-- ===== src/Handler/Accounts/Sessions.antt =====
-- internal/handler/auth_handler.go: HandleRegister and HandleLogin.
use hzchat_server.Common.{Bool, true, false, [], Option, none, some, not}
use hzchat_server.Text.{Bytes, bytes}
use hzchat_server.Errs.{
  err_already_logged_in, err_invalid_username, err_invalid_password, err_unknown,
  err_user_already_exists, err_invalid_credentials,
}
use hzchat_server.Randx.{Drawn, text, failed, out_of_range, user_nickname}
use hzchat_server.Http.{bind_json}
use hzchat_server.Users
use hzchat_server.Users.{
  User, Queried, row, no_rows, unique_violation, is_username, new_user, insert_user,
  get_user_by_username,
}
use hzchat_server.Handler.Assets.{full_asset_url}
use hzchat_server.Handler.Accounts.{
  Credentials, Services, Request, crashed, Action, ◌>>=◌, ◌>>◌, reply, refuse, refuse_if, or_refuse,
  from_bound, from_row, tick, is_bad_password, or_empty, claims_of, query, select, touch,
  issue_token,
}

-- The user of a response; none is null.
pub record Profile : Type 0 where
  pub id : Bytes
  pub nickname : Bytes
  pub avatar : Bytes
  pub user_type : Bytes
  pub plan_type : Bytes
  pub last_login_at : Option Bytes

pub record Session : Type 0 where
  pub token : Bytes
  pub user : Profile

abbrev pub is_some {ℓ} : {A : Type ℓ} → Option A → Bool
is_some none = false
is_some (some _) = true

-- The nickname of a new user.
unfoldable pub nickname_of : Drawn → Action Bytes
nickname_of (text nickname) = reply nickname
nickname_of failed = reply (bytes "User_X")
nickname_of out_of_range = λ s. (crashed, s)

-- The error of CreateUser.
unfoldable pub from_created : Queried User → Action User
from_created (row u) = reply u
from_created unique_violation = refuse err_user_already_exists
from_created no_rows = refuse err_unknown
from_created Users.failed = refuse err_unknown

module _ (sv : Services) where
  -- CreateUser: gen_random_uuid() and NOW() are those of the call.
  unfoldable pub create_user : Bytes → Bytes → Bytes → Action User
  create_user username password_hash nickname = do
    n ← tick
    created ←
        query sv
          (λ now. insert_user (new_user (sv.new_id n) now username password_hash (some nickname)))
    from_created created

  -- bcrypt.GenerateFromPassword
  unfoldable pub hash_password : Bytes → Action Bytes
  hash_password password = do n ← tick; or_refuse err_unknown (sv.generate_from_password n password)

  unfoldable pub draw_nickname : Action Bytes
  draw_nickname = do n ← tick; nickname_of (user_nickname (sv.random n))

  -- HandleRegister behind its checks, up to the new row.
  unfoldable pub create_account : Credentials → Action User
  create_account input = do
    hashed_password ← hash_password input.password
    nickname ← draw_nickname
    create_user input.username hashed_password nickname

  -- The response of a session for a user with this avatar and plan.
  unfoldable pub open_session : User → Bytes → Bytes → Action Session
  open_session user avatar plan_type = do
    touch sv (some user.id)
    token ←
        issue_token sv
          (claims_of (sv.uuid_string user.id) (bytes "registered") (or_empty user.nickname) avatar)
    n ← tick
    reply (
        let session : Session = record {
          token = token;
          user = record {
            id = sv.uuid_string user.id;
            nickname = or_empty user.nickname;
            avatar = avatar;
            user_type = bytes "registered";
            plan_type = plan_type;
            last_login_at = some (sv.format_time (sv.now n));
          };
        } in
        session)

  -- HandleRegister
  unfoldable pub handle_register : Request → Action Session
  handle_register r = do
    refuse_if (is_some r.identity) err_already_logged_in
    input ← from_bound (bind_json sv.decode_credentials r.content_type r.body)
    refuse_if (not (is_username input.username)) err_invalid_username
    refuse_if (is_bad_password input.password) err_invalid_password
    user ← create_account input
    open_session user [] (bytes "FREE")

  -- HandleLogin
  unfoldable pub handle_login : Request → Action Session
  handle_login r = do
    refuse_if (is_some r.identity) err_already_logged_in
    input ← from_bound (bind_json sv.decode_credentials r.content_type r.body)
    queried ← select sv (get_user_by_username input.username)
    user ← from_row err_invalid_credentials queried
    refuse_if (not (sv.compare_hash_and_password user.password_hash input.password))
        err_invalid_credentials
    open_session user (full_asset_url sv.s3_public_base_url (or_empty user.avatar_url))
        user.plan_type
