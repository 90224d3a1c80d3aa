-- ===== src/Security.antt =====
-- app/core/security.py and `is_production` of app/core/config.py
use nexobank_backend.Base.{
  ℕ, ◌+◌, ◌*◌, String, Bool, Option, none, some, str_eq, is_text, lower, if◌then◌else◌,
}
use nexobank_backend.Session.{
  Env, Settings, Claims, runtime_error, Action, draw, pure, raise_if, ◌>>=◌, ◌>>◌,
}

-- `timedelta(minutes=n)` and `timedelta(days=n)` in microseconds
abbrev pub minutes : ℕ → ℕ
minutes n = n * 60000000

abbrev pub days : ℕ → ℕ
days n = n * 86400000000

-- `Settings.is_production`
unfoldable pub is_production : Settings → Bool
is_production settings = str_eq (lower settings.environment) "production"

-- `hash_token`
unfoldable pub hash_token : Env → String → String
hash_token env token = env.sha256_hex token

-- `verify_password`
unfoldable pub verify_password : Env → String → String → Action Bool
verify_password env plain hashed = do
  raise_if (env.is_oversized plain) runtime_error
  pure (env.verify plain hashed)

-- the claim that an access token is read for
abbrev pub subject_of : Option Claims → Option String
subject_of none = none
subject_of (some claims) = if is_text "access" claims.token_type then claims.sub else none

module _ (env : Env) where
  -- `hash_password`
  unfoldable pub hash_password : String → Action String
  hash_password password = do
    raise_if (env.is_oversized password) runtime_error
    draw (λ n. env.hash n password)

  -- `create_access_token`, with the default lifetime
  unfoldable pub create_access_token : String → Action String
  create_access_token subject = do
    expire_from ← draw env.now
    issued ← draw env.now
    pure (
        env.jwt_encode
          (record {
            sub = some subject;
            exp = expire_from + minutes env.settings.access_token_expire_minutes;
            iat = issued;
            token_type = some "access";
          })
          env.settings.secret_key)

  -- `decode_access_token`
  unfoldable pub decode_access_token : String → Action (Option String)
  decode_access_token token = do
    payload ← draw (λ n. env.jwt_decode (env.now n) token env.settings.secret_key)
    pure (subject_of payload)

  -- `create_refresh_token`: the raw token and its hash
  unfoldable pub create_refresh_token : Action (String × String)
  unfolding hash_token
  create_refresh_token = do
    token_raw ← draw (λ n. env.token_urlsafe n 64)
    pure (token_raw, hash_token env token_raw)
