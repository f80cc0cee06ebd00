-- ===== src/Handler/Accounts/Passwords.antt =====
-- internal/handler/auth_handler.go: HandleChangePassword.
use hzchat_server.Common.{Option, none, some, if◌then◌else◌, not}
use hzchat_server.Text.{Bytes, bytes, bytes_eq}
use hzchat_server.Errs.{
  err_unauthorized, err_invalid_password, err_user_not_found, err_old_password_invalid, err_unknown,
}
use hzchat_server.Jwt
use hzchat_server.Http.{bind_json}
use hzchat_server.Users.{get_user_by_id, update_user_password}
use hzchat_server.Handler.Accounts.{
  Services, Request, Action, ◌>>=◌, ◌>>◌, reply, refuse, refuse_if, from_bound, from_row,
  is_bad_password, query, select, issue_token,
}
use hzchat_server.Handler.Accounts.Sessions.{hash_password}

-- identity == nil || identity.UserType != "registered"
unfoldable pub registered_identity : Option Jwt.Payload → Action Jwt.Payload
registered_identity none = refuse err_unauthorized
registered_identity (some identity) =
    if not (bytes_eq identity.user_type (bytes "registered"))
    then refuse err_unauthorized
    else reply identity

module _ (sv : Services) where
  -- HandleChangePassword; the id that does not scan is NULL. The token has all claims of the identity.
  unfoldable pub handle_change_password : Request → Action Bytes
  handle_change_password r = do
    identity ← registered_identity r.identity
    input ← from_bound (bind_json sv.decode_change_password r.content_type r.body)
    refuse_if (is_bad_password input.new_password) err_invalid_password
    let user_uuid = sv.scan_uuid identity.id
    queried ← select sv (get_user_by_id user_uuid)
    user ← from_row err_user_not_found queried
    refuse_if (not (sv.compare_hash_and_password user.password_hash input.old_password))
        err_old_password_invalid
    hashed_password ← hash_password sv input.new_password
    updated ← query sv (update_user_password user_uuid hashed_password)
    from_row err_unknown updated
    issue_token sv identity
