-- ===== src/Handler/Accounts/Fixture.antt =====
-- Concrete services, requests, and a table with one account for the examples: every call succeeds, and a
-- hash shows its password.
use hzchat_server.Common.{◌*◌, false, [], ◌∷◌, ◌++◌, none, some, if◌then◌else◌}
use hzchat_server.Text.{Bytes, bytes, bytes_eq}
use hzchat_server.Jwt
use hzchat_server.Jwt.{second, generate_token}
use hzchat_server.Users.{User, new_user}
use hzchat_server.Handler.Accounts.{
  Store, Services, Request, Credentials, ChangePasswordInput, UpdateProfileInput, Answer, replied,
}

abbrev pub credentials : Credentials
credentials = record { username = bytes "ann_1"; password = bytes "secret1" }

abbrev pub new_passwords : ChangePasswordInput
new_passwords = record { old_password = bytes "secret1"; new_password = bytes "secret2" }

abbrev pub new_profile : UpdateProfileInput
new_profile = record { nickname = bytes "Annie"; avatar_url = bytes "avatars/2" }

abbrev pub hash_of : Bytes → Bytes
hash_of password = bytes "#" ++ password

abbrev pub services : Services
services = record {
  fails = λ n. false;
  new_id = λ n. n ∷ [];
  now = λ n. n * second;
  generate_from_password = λ n password. some (hash_of password);
  compare_hash_and_password = λ hash password. bytes_eq hash (hash_of password);
  random = λ n i. some 0;
  sign = λ claims secret. some (claims.id ++ secret);
  scan_uuid = λ s. if bytes_eq s [] then none else some s;
  uuid_string = λ id. id;
  format_time = λ t. bytes "now";
  decode_credentials = λ body. some (credentials, []);
  decode_change_password = λ body. some (new_passwords, []);
  decode_update_profile = λ body. some (new_profile, []);
  jwt_secret = bytes "key";
  s3_public_base_url = bytes "http://s3";
}

abbrev pub anonymous : Request
anonymous = record { identity = none; content_type = bytes "application/json"; body = [] }

-- The account 7, and a request of it.
abbrev pub ann : User
ann =
    record (new_user (7 ∷ []) second (bytes "ann_1") (hash_of (bytes "secret1"))
      (some (bytes "Ann"))) { avatar_url = some (bytes "avatars/1") }

abbrev pub identity : Jwt.Payload
identity = record {
  expires_at = 900;
  issued_at = 0;
  issuer = bytes "HZChat-Server";
  id = 7 ∷ [];
  code = [];
  user_type = bytes "registered";
  nickname = bytes "Ann";
  avatar = [];
}

abbrev pub request : Request
request = record anonymous { identity = some identity }

abbrev pub empty : Store
empty = record { users = []; ticks = 0; jobs = [] }

abbrev pub filled : Store
filled = record empty { users = ann ∷ [] }

abbrev pub reply_of {ℓ} : {A : Type ℓ} → A → Answer A → A
reply_of otherwise (replied a) = a
reply_of otherwise _ = otherwise
