-- ===== src/Config/Tests.antt =====
-- The environment of a deployment, and LoadConfig at it.
use hzchat_server.Common.{◌≡◌, ◌↔◌, refl, [], ◌∷◌, some, if◌then◌else◌}
use hzchat_server.Common.Int.{pos, negsuc}
use hzchat_server.Text.{Bytes, bytes, bytes_eq, has_prefix}
use hzchat_server.Config.{
  AppConfig, loaded, load_config, atoi, in_range, digits, trim_space, split_commas, trimmed_origins,
  origins_of, int_of, check_port, secret_of, required, trim_front, space_width, ◌>>=◌,
}
use hzchat_server.Config.Laws.{IsConfig, load_config_iff}

abbrev getenv : Bytes → Bytes
getenv name =
    if bytes_eq name (bytes "ENVIRONMENT")
    then bytes "production"
    else if bytes_eq name (bytes "PORT")
    then []
    else if bytes_eq name (bytes "POW_DIFFICULTY")
    then bytes "+5"
    else if bytes_eq name (bytes "ALLOWED_ORIGINS")
    then bytes " a, ,b"
    else name

abbrev config : AppConfig
config = record {
  environment = bytes "production";
  port = pos 8080;
  pow_difficulty = pos 5;
  allowed_origins = bytes "a" ∷ bytes "b" ∷ [];
  jwt_secret = bytes "JWT_SECRET";
  s3_endpoint = bytes "S3_ENDPOINT";
  s3_access_key_id = bytes "S3_ACCESS_KEY_ID";
  s3_secret_access_key = bytes "S3_SECRET_ACCESS_KEY";
  s3_public_bucket_name = bytes "S3_PUBLIC_BUCKET_NAME";
  s3_private_bucket_name = bytes "S3_PRIVATE_BUCKET_NAME";
  s3_public_base_url = bytes "S3_PUBLIC_BASE_URL";
  database_dsn = bytes "DATABASE_URL";
}

load_config_iff_example : (load_config getenv ≡ loaded config) ↔ IsConfig getenv config
load_config_iff_example = load_config_iff getenv config

negative : atoi (bytes "-80") ≡ some (negsuc 79)
unfolding atoi in_range digits
negative = refl

loads : load_config getenv ≡ loaded config
unfolding load_config ◌>>=◌ int_of atoi bytes_eq in_range digits check_port secret_of required
    origins_of trimmed_origins split_commas trim_space trim_front space_width has_prefix
loads = refl
