-- ===== src/Handler/Accounts/Profiles.antt =====
-- internal/handler: HandleGetUserProfile of auth_handler.go and HandleUpdateUserProfile of
-- user_handler.go.
use hzchat_server.Common.{
  ℕ, ◌+◌, ◌*◌, Bool, true, ◌&&◌, [], Option, none, some, ltb, if◌then◌else◌, not,
}
use mathlib.Core.Option
use hzchat_server.Text.{Bytes, bytes, bytes_eq}
use hzchat_server.Errs.{err_unauthorized, err_invalid_params, err_user_not_found, err_unknown}
use hzchat_server.Jwt.{minute, generate_token, user_identity_expiration}
use hzchat_server.Http.{bind_json}
use hzchat_server.Users.{User, get_user_by_id, update_user_profile}
use hzchat_server.Handler.Assets.{Normalized, key, invalid_url, full_asset_url, normalize_asset_key}
use hzchat_server.Handler.Accounts.{
  Job, touch_login, delete_object, Services, Request, Action, ◌>>=◌, ◌>>◌, reply, refuse,
  from_bound, from_row, or_refuse, tick, start, or_empty, claims_of, query, select,
}
use hzchat_server.Handler.Accounts.Sessions.{Profile}
use hzchat_server.Handler.Accounts.Passwords.{registered_identity}

unfoldable pub from_normalized : Normalized → Action Bytes
from_normalized (key k) = reply k
from_normalized invalid_url = refuse err_invalid_params

-- !LastLoginAt.Valid || time.Since(LastLoginAt.Time) > 30*time.Minute
unfoldable pub is_login_stale : ℕ → Option ℕ → Bool
is_login_stale now none = true
is_login_stale now (some last_login) = ltb (last_login + 30 * minute) now

unfoldable pub start_if : Bool → Job → Action (Unit {0})
start_if test job = if test then start job else reply tt

-- The response of HandleUpdateUserProfile, with a token if one was made.
pub record UpdatedProfile : Type 0 where
  pub user : Profile
  pub token : Option Bytes

-- avatarKey != "" && oldKey != "" && oldKey != avatarKey
abbrev pub is_replaced : Bytes → Bytes → Bool
is_replaced old_key avatar_key =
    not (bytes_eq avatar_key []) && (not (bytes_eq old_key []) && not (bytes_eq old_key avatar_key))

module _ (sv : Services) where
  abbrev pub avatar_of : User → Bytes
  avatar_of u = full_asset_url sv.s3_public_base_url (or_empty u.avatar_url)

  -- HandleGetUserProfile
  unfoldable pub handle_get_user_profile : Request → Action Profile
  handle_get_user_profile r = do
    identity ← or_refuse err_unauthorized r.identity
    user_uuid ← or_refuse err_unauthorized (sv.scan_uuid identity.id)
    queried ← select sv (get_user_by_id (some user_uuid))
    user ← from_row err_unauthorized queried
    n ← tick
    start_if (is_login_stale (sv.now n) user.last_login_at) (touch_login user.id)
    reply (
        let profile : Profile = record {
          id = sv.uuid_string user.id;
          nickname = or_empty user.nickname;
          avatar = avatar_of user;
          user_type = bytes "registered";
          plan_type = user.plan_type;
          last_login_at = Option.map sv.format_time user.last_login_at;
        } in
        profile)

  -- lastLoginStr, which is empty where there is no login.
  abbrev last_login : Option ℕ → Bytes
  last_login none = []
  last_login (some t) = sv.format_time t

  -- HandleUpdateUserProfile
  unfoldable pub handle_update_user_profile : Request → Action UpdatedProfile
  handle_update_user_profile r = do
    identity ← registered_identity r.identity
    input ← from_bound (bind_json sv.decode_update_profile r.content_type r.body)
    avatar_key ← from_normalized (normalize_asset_key sv.s3_public_base_url input.avatar_url)
    let user_uuid = sv.scan_uuid identity.id
    queried ← select sv (get_user_by_id user_uuid)
    old_user ← from_row err_user_not_found queried
    changed ← query sv (update_user_profile user_uuid input.nickname avatar_key)
    updated_user ← from_row err_unknown changed
    start_if (is_replaced (or_empty old_user.avatar_url) avatar_key)
        (delete_object (or_empty old_user.avatar_url))
    n ← tick
    reply (
        let response : UpdatedProfile = record {
          user = record {
            id = identity.id;
            nickname = or_empty updated_user.nickname;
            avatar = avatar_of updated_user;
            user_type = bytes "registered";
            plan_type = old_user.plan_type;
            last_login_at = some (last_login old_user.last_login_at);
          };
          token =
              (generate_token sv.sign (sv.now n)
                (claims_of identity.id identity.user_type (or_empty updated_user.nickname)
                  (avatar_of updated_user))
                sv.jwt_secret user_identity_expiration).1;
        } in
        response)
