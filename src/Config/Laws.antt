-- ===== src/Config/Laws.antt =====
-- Which environments LoadConfig accepts, and what it makes of them.
use hzchat_server.Common.{
  ℕ, ◌≤◌, ◌≡◌, ◌≢◌, refl, sym, subst, ap, ◌∙◌, ◌↔◌, ◌⊎◌, inl, inr, List, [], ◌∷◌, Option, none,
  some, arith, Bool-cases, All,
}
use hzchat_server.Common.Int.{ℤ, pos, negsuc}
use hzchat_server.Text.{Bytes, bytes, bytes_eq, bytes_eq_iff}
use hzchat_server.Config.{
  AppConfig, Loaded, loaded, invalid, ◌>>=◌, atoi, int_of, is_bad_port, check_port, secret_of,
  required, environment_of, load_config, or_default, development, insecure_secret, local_dsn,
  origins_of, trimmed_origins, split_commas, trim_space,
}

-- The step ends in this value.
record Loads {A : Type 0} (m : Loaded A) (a : A) : Type 0 where
  loads : m ≡ loaded a

Loads-bind :
    {A B : Type 0} {m : Loaded A} {k : A → Loaded B} {b : B}
    → Loads (m >>= k) b
    → (a : A) × (m ≡ loaded a) × Loads (k a) b
unfolding ◌>>=◌
Loads-bind {A} {B} {m} {k} {b} h = go m refl h.loads
  where
    go : (n : Loaded A) → m ≡ n → n >>= k ≡ loaded b → (a : A) × (m ≡ loaded a) × Loads (k a) b
    go (loaded a) e h = (a, e, record { loads = h })
    go (invalid name) e h = absurd (cc h)

loaded_next :
    {A B : Type 0} (m : Loaded A) (k : A → Loaded B) (a : A) → m ≡ loaded a → m >>= k ≡ k a
unfolding ◌>>=◌
loaded_next m k a e = rw (e) refl

Loads-loaded : {A : Type 0} {a b : A} → Loads (loaded a) b → a ≡ b
Loads-loaded h = cc h.loads

int_of-inv : (name : Bytes) (o : Option ℤ) (n : ℤ) → int_of name o ≡ loaded n → o ≡ some n
unfolding int_of
int_of-inv name none n h = absurd (cc h)
int_of-inv name (some m) n h = ap some (cc h)

-- A port that needs no privileges.
abbrev pub IsPort : ℤ → Type 0
IsPort port = (n : ℕ) × (port ≡ pos n) × (1024 ≤ n) × (n ≤ 65535)

check_port-inv : (port n : ℤ) → check_port port ≡ loaded n → (n ≡ port) × IsPort port
unfolding check_port
check_port-inv (pos p) n h = elim (Bool-cases (is_bad_port (pos p))) [
  | inl bad ↦ absurd (ground (arith, bad, h))
  | inr good ↦ (ground (arith, good, h), (p, refl, ground (arith, good), ground (arith, good)))
]
check_port-inv (negsuc p) n h = absurd (cc h)

required-inv :
    (getenv : Bytes → Bytes) (name value : Bytes)
    → required getenv name ≡ loaded value
    → (value ≡ getenv name) × (value ≢ [])
unfolding required
required-inv getenv name value h = elim (Bool-cases (bytes_eq (getenv name) [])) [
  | inl e ↦ absurd (ground (arith, e, h))
  | inr e ↦
      let same : value ≡ getenv name = ground (arith, e, h) in
      (same, λ f. ground (arith, e, same, f, bytes_eq_iff (getenv name) []))
]

-- The value of a variable, or in development, where it is not set, this default.
abbrev pub IsSecret : Bytes → Bytes → Bytes → Bytes → Type 0
IsSecret fallback environment value secret =
    ((value ≢ []) × (secret ≡ value))
    ⊎ ((value ≡ []) × (environment ≡ development) × (secret ≡ fallback))

secret_of-inv :
    (name fallback environment value secret : Bytes)
    → secret_of name fallback environment value ≡ loaded secret
    → IsSecret fallback environment value secret
unfolding secret_of
secret_of-inv name fallback environment value secret h = elim (Bool-cases (bytes_eq value [])) [
  | inr e ↦ inl (λ f. ground (arith, e, f, bytes_eq_iff value []), ground (arith, e, h))
  | inl e ↦ elim (Bool-cases (bytes_eq environment development)) [
    | inr f ↦ absurd (ground (arith, e, f, h))
    | inl f ↦ inr (
      (bytes_eq_iff value []).0 e,
      (bytes_eq_iff environment development).0 f,
      ground (arith, e, f, h),
    )
  ]
]

-- The variable is set, and this is its value.
abbrev pub IsGiven : Bytes → Bytes → Type 0
IsGiven variable value = (value ≡ variable) × (value ≢ [])

module _ (getenv : Bytes → Bytes) where
  -- The configuration of an environment.
  pub record IsConfig (cfg : AppConfig) : Type 0 where
    pub environment : cfg.environment ≡ environment_of getenv
    pub port : atoi (or_default (bytes "8080") (getenv (bytes "PORT"))) ≡ some cfg.port
    pub unprivileged : IsPort cfg.port
    pub pow_difficulty :
        atoi (or_default (bytes "4") (getenv (bytes "POW_DIFFICULTY"))) ≡ some cfg.pow_difficulty
    pub allowed_origins : cfg.allowed_origins ≡ origins_of (getenv (bytes "ALLOWED_ORIGINS"))
    pub named_origins : All (λ origin. origin ≢ []) cfg.allowed_origins
    pub jwt_secret :
        IsSecret insecure_secret
          (environment_of getenv)
          (getenv (bytes "JWT_SECRET"))
          cfg.jwt_secret
    pub s3_endpoint : IsGiven (getenv (bytes "S3_ENDPOINT")) cfg.s3_endpoint
    pub s3_access_key_id : IsGiven (getenv (bytes "S3_ACCESS_KEY_ID")) cfg.s3_access_key_id
    pub s3_secret_access_key :
        IsGiven (getenv (bytes "S3_SECRET_ACCESS_KEY")) cfg.s3_secret_access_key
    pub s3_public_bucket_name :
        IsGiven (getenv (bytes "S3_PUBLIC_BUCKET_NAME")) cfg.s3_public_bucket_name
    pub s3_private_bucket_name :
        IsGiven (getenv (bytes "S3_PRIVATE_BUCKET_NAME")) cfg.s3_private_bucket_name
    pub s3_public_base_url : IsGiven (getenv (bytes "S3_PUBLIC_BASE_URL")) cfg.s3_public_base_url
    pub database_dsn :
        IsSecret local_dsn (environment_of getenv) (getenv (bytes "DATABASE_URL")) cfg.database_dsn

  trimmed_origins-named : (origins : List Bytes) → All (λ o. o ≢ []) (trimmed_origins origins)
  unfolding trimmed_origins
  trimmed_origins-named [] = tt
  trimmed_origins-named (o ∷ origins) = elim (Bool-cases (bytes_eq (trim_space o) [])) [
    | inl e ↦ rw (e) (trimmed_origins-named origins)
    | inr e ↦
        rw (e) (
          (λ f. ground (arith, e, f, bytes_eq_iff (trim_space o) [])),
          trimmed_origins-named origins,
        )
  ]

  origins_of-named : (s : Bytes) → All (λ o. o ≢ []) (origins_of s)
  unfolding origins_of
  origins_of-named s = elim (Bool-cases (bytes_eq s [])) [
    | inl e ↦ rw (e) tt
    | inr e ↦ rw (e) (trimmed_origins-named (split_commas s))
  ]

  Loads-IsConfig : (cfg : AppConfig) → Loads (load_config getenv) cfg → IsConfig cfg
  unfolding load_config
  Loads-IsConfig cfg h =
      let (number, e1, h1) = Loads-bind h in
      let (port, e2, h2) = Loads-bind h1 in
      let (difficulty, e3, h3) = Loads-bind h2 in
      let (secret, e4, h4) = Loads-bind h3 in
      let (endpoint, e5, h5) = Loads-bind h4 in
      let (key_id, e6, h6) = Loads-bind h5 in
      let (access_key, e7, h7) = Loads-bind h6 in
      let (public_name, e8, h8) = Loads-bind h7 in
      let (private_name, e9, h9) = Loads-bind h8 in
      let (base_url, e10, h10) = Loads-bind h9 in
      let (dsn, e11, h11) = Loads-bind h10 in
      let (same, unprivileged) = check_port-inv number port e2 in
      subst IsConfig (Loads-loaded h11) (record {
        environment = refl;
        port = int_of-inv _ _ number e1 ∙ ap some (sym same);
        unprivileged = subst IsPort (sym same) unprivileged;
        pow_difficulty = int_of-inv _ _ difficulty e3;
        allowed_origins = refl;
        named_origins = origins_of-named _;
        jwt_secret = secret_of-inv _ _ _ _ secret e4;
        s3_endpoint = required-inv getenv _ endpoint e5;
        s3_access_key_id = required-inv getenv _ key_id e6;
        s3_secret_access_key = required-inv getenv _ access_key e7;
        s3_public_bucket_name = required-inv getenv _ public_name e8;
        s3_private_bucket_name = required-inv getenv _ private_name e9;
        s3_public_base_url = required-inv getenv _ base_url e10;
        database_dsn = secret_of-inv _ _ _ _ dsn e11;
      })

  int_of-eq : (name : Bytes) (o : Option ℤ) (n : ℤ) → o ≡ some n → int_of name o ≡ loaded n
  unfolding int_of
  int_of-eq name o n e = rw (e) refl

  check_port-eq : (port : ℤ) → IsPort port → check_port port ≡ loaded port
  unfolding check_port
  check_port-eq port (n, e, low, high) = rw (e) (ground (arith, low, high))

  required-eq :
      (name value : Bytes) → IsGiven (getenv name) value → required getenv name ≡ loaded value
  unfolding required
  required-eq name value (same, set) = ground (arith, same, set, bytes_eq_iff (getenv name) [])

  secret_of-eq :
      (name fallback environment value secret : Bytes)
      → IsSecret fallback environment value secret
      → secret_of name fallback environment value ≡ loaded secret
  unfolding secret_of
  secret_of-eq name fallback environment value secret (inl (set, same)) =
      ground (arith, same, set, bytes_eq_iff value [])
  secret_of-eq name fallback environment value secret (inr (unset, local, same)) =
      ground
        (arith, same, unset, local, bytes_eq_iff value [], bytes_eq_iff environment development)

  IsConfig-loads : (cfg : AppConfig) → IsConfig cfg → load_config getenv ≡ loaded cfg
  unfolding load_config
  IsConfig-loads cfg c =
      loaded_next _ _ cfg.port (int_of-eq _ _ cfg.port c.port)
      ∙ loaded_next _ _ cfg.port (check_port-eq cfg.port c.unprivileged)
      ∙ loaded_next _ _ cfg.pow_difficulty (int_of-eq _ _ cfg.pow_difficulty c.pow_difficulty)
      ∙ loaded_next _ _ cfg.jwt_secret (secret_of-eq _ _ _ _ cfg.jwt_secret c.jwt_secret)
      ∙ loaded_next _ _ cfg.s3_endpoint (required-eq _ cfg.s3_endpoint c.s3_endpoint)
      ∙ loaded_next _ _ cfg.s3_access_key_id (required-eq _ cfg.s3_access_key_id c.s3_access_key_id)
      ∙ loaded_next _ _ cfg.s3_secret_access_key
          (required-eq _ cfg.s3_secret_access_key c.s3_secret_access_key)
      ∙ loaded_next _ _ cfg.s3_public_bucket_name
          (required-eq _ cfg.s3_public_bucket_name c.s3_public_bucket_name)
      ∙ loaded_next _ _ cfg.s3_private_bucket_name
          (required-eq _ cfg.s3_private_bucket_name c.s3_private_bucket_name)
      ∙ loaded_next _ _ cfg.s3_public_base_url
          (required-eq _ cfg.s3_public_base_url c.s3_public_base_url)
      ∙ loaded_next _ _ cfg.database_dsn (secret_of-eq _ _ _ _ cfg.database_dsn c.database_dsn)
      ∙ ap
          (λ e. loaded (record cfg {
            environment = e;
            allowed_origins = origins_of (getenv (bytes "ALLOWED_ORIGINS"));
          }))
          (sym c.environment)
      ∙ ap (λ o. loaded (record cfg { allowed_origins = o })) (sym c.allowed_origins)

  -- LoadConfig succeeds exactly with the configuration of the environment: PORT, 8080 if it is not set, is
  -- the decimal number of a port from 1024 to 65535, POW_DIFFICULTY is a decimal number, the six variables
  -- of the storage are set, and JWT_SECRET and DATABASE_URL are set unless the environment is development,
  -- where they have defaults; no allowed origin is empty.
  pub load_config_iff : (cfg : AppConfig) → (load_config getenv ≡ loaded cfg) ↔ IsConfig cfg
  load_config_iff cfg = (λ h. Loads-IsConfig cfg (record { loads = h }), IsConfig-loads cfg)
