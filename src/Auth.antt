-- ===== src/Auth.antt =====
-- app/services/auth_service.py
pub mod Issuing
pub mod Rotation
pub mod LoginFlow
pub mod Reset
use nexobank_backend.Models.{Host}
use nexobank_backend.Base.{
  ℕ, ◌+◌, String, Bool, true, false, ◌||◌, not, Option, none, some, List, [], ◌∷◌, ◌++◌, ltb,
  if◌then◌else◌,
}
use nexobank_backend.Models.{User, RefreshToken, PasswordResetToken, Json, is_active_status}
use nexobank_backend.Session.{
  Env, domain, invalid_credentials, Action, draw, pure, raise, raise_if, or_raise, commit, ◌>>=◌,
  ◌>>◌,
}
use nexobank_backend.Security.{
  minutes, days, is_production, hash_token, verify_password, hash_password, create_access_token,
  create_refresh_token,
}
use nexobank_backend.Repositories.Users
use nexobank_backend.Repositories.RefreshTokens
use nexobank_backend.Repositories.ResetTokens
use nexobank_backend.Repositories.AuditLogs

-- the user, the access token and the raw refresh token
abbrev pub Login : Type 0
Login = User × String × String

-- `raise InvalidCredentialsError`
abbrev pub refuse : {A : Type 0} → Action A
refuse = raise (domain invalid_credentials)

module _ (env : Env) where
  -- The token pair that registration, login and rotation issue: the refresh token is stored by its
  -- hash, then the access token is made.
  unfoldable pub issue_tokens : ℕ → Action (String × String)
  issue_tokens user_id = do
    pair ← create_refresh_token env
    now ← draw env.now
    RefreshTokens.create env user_id pair.1 (now + days env.settings.refresh_token_expire_days)
    access_token ← create_access_token env (env.uuid_text user_id)
    pure (access_token, pair.0)

  -- an audit entry of the user on the user
  abbrev pub log_user : String → ℕ → Option Host → List (String × Json) → Action (Unit {0})
  log_user action user_id ip_address metadata = do
    AuditLogs.log env action (some user_id) (some "user") (some user_id) ip_address metadata
    pure tt

  -- `register_user`
  unfoldable pub register_user :
      String → String → String → Option String → Option Host → Action Login
  register_user email password full_name phone ip_address = do
    existing ← Users.get_by_email email
    elim existing [
      | some _ ↦ refuse
      | none ↦ do
        pw_hash ← hash_password env password
        user ← Users.create env email pw_hash full_name phone
        tokens ← issue_tokens user.id
        log_user "USER_REGISTERED" user.id ip_address (("email", Json.text email) ∷ [])
        commit
        pure (user, tokens.0, tokens.1)
    ]

  -- `login_user` of an unknown email: the failure is logged and committed, then raised
  unfoldable pub login_unknown : Option Host → Action Login
  login_unknown ip_address = do
    AuditLogs.log env "LOGIN_FAILED" none (some "user") none ip_address
        (("reason", Json.text "user_not_found") ∷ [])
    commit
    refuse

  -- … and of a wrong password
  unfoldable pub login_wrong_password : User → Option Host → Action Login
  login_wrong_password user ip_address = do
    log_user "LOGIN_FAILED" user.id ip_address (("reason", Json.text "wrong_password") ∷ [])
    commit
    refuse

  -- … and of a user whose password is right
  unfoldable pub login_verified : User → String → Option Host → Action Login
  login_verified user email ip_address = do
    raise_if (not (is_active_status user.status)) (domain invalid_credentials)
    tokens ← issue_tokens user.id
    log_user "LOGIN_SUCCESS" user.id ip_address (("email", Json.text email) ∷ [])
    commit
    pure (user, tokens.0, tokens.1)

  -- `login_user`
  unfoldable pub login_user : String → String → Option Host → Action Login
  login_user email password ip_address = do
    found ← Users.get_by_email email
    elim found [
      | none ↦ login_unknown ip_address
      | some user ↦ do
        is_right ← verify_password env password user.password_hash
        if is_right
            then login_verified user email ip_address
            else login_wrong_password user ip_address
    ]

  -- The end of `refresh_tokens`: the rotation of a token that is good.
  unfoldable pub rotate : RefreshToken → Action (String × String)
  rotate stored = do
    RefreshTokens.revoke stored
    tokens ← issue_tokens stored.user_id
    log_user "TOKEN_REFRESHED" stored.user_id none []
    commit
    pure tokens

  -- `refresh_tokens`
  unfoldable pub refresh_tokens : String → Action (String × String)
  refresh_tokens refresh_token_raw = do
    found ← RefreshTokens.get_by_hash (hash_token env refresh_token_raw)
    stored ← or_raise found (domain invalid_credentials)
    raise_if stored.revoked (domain invalid_credentials)
    now ← draw env.now
    raise_if (ltb stored.expires_at now) (domain invalid_credentials)
    rotate stored

  -- `if stored is not None and not stored.revoked: revoke`
  unfoldable pub revoke_live : Option RefreshToken → Action (Unit {0})
  revoke_live none = pure tt
  revoke_live (some stored) = if stored.revoked then pure tt else RefreshTokens.revoke stored

  -- `logout_user`
  unfoldable pub logout_user : String → ℕ → Option Host → Action (Unit {0})
  logout_user refresh_token_raw user_id ip_address = do
    stored ← RefreshTokens.get_by_hash (hash_token env refresh_token_raw)
    revoke_live stored
    log_user "LOGOUT" user_id ip_address []
    commit

  -- `request_password_reset`: the raw token, outside production, and whether it is outside
  unfoldable pub request_password_reset : String → Option Host → Action (Option String × Bool)
  request_password_reset email ip_address = do
    found ← Users.get_by_email email
    elim found [
      | none ↦ pure (none, not (is_production env.settings))
      | some user ↦ do
        raw_token ← draw (λ n. env.token_urlsafe n 32)
        now ← draw env.now
        ResetTokens.create env user.id (hash_token env raw_token) (now + minutes 15)
        log_user "PASSWORD_RESET_REQUESTED" user.id ip_address []
        commit
        pure (
          (if not (is_production env.settings) then some raw_token else none),
          not (is_production env.settings),
        )
    ]

  -- `confirm_password_reset`
  unfoldable pub confirm_password_reset : String → String → Option Host → Action (Unit {0})
  confirm_password_reset raw_token new_password ip_address = do
    found ← ResetTokens.get_by_hash (hash_token env raw_token)
    stored ← or_raise found (domain invalid_credentials)
    raise_if stored.used (domain invalid_credentials)
    now ← draw env.now
    raise_if (ltb stored.expires_at now) (domain invalid_credentials)
    found_user ← Users.get_by_id stored.user_id
    user ← or_raise found_user (domain invalid_credentials)
    new_hash ← hash_password env new_password
    Users.update user (λ u. record u { password_hash = new_hash })
    ResetTokens.mark_used stored
    log_user "PASSWORD_RESET_COMPLETED" stored.user_id ip_address []
    commit

  -- the assignments of `update_user_profile`, and the names of the fields that are set
  abbrev pub set_fields : Option String → Option String → User → User
  set_fields none none u = u
  set_fields (some name) none u = record u { full_name = name }
  set_fields none (some number) u = record u { phone = some number }
  set_fields (some name) (some number) u = record u { full_name = name; phone = some number }

  abbrev pub field_names : Option String → Option String → List String
  field_names none none = []
  field_names (some _) none = "full_name" ∷ []
  field_names none (some _) = "phone" ∷ []
  field_names (some _) (some _) = "full_name" ∷ "phone" ∷ []

  -- `if fields_to_update: user = update(...)`
  unfoldable pub update_fields : User → Option String → Option String → Action User
  update_fields user none none = pure user
  update_fields user full_name phone = Users.update user (set_fields full_name phone)

  -- `update_user_profile`
  unfoldable pub update_user_profile :
      User → Option String → Option String → Option Host → Action User
  update_user_profile user full_name phone ip_address = do
    updated ← update_fields user full_name phone
    log_user "PROFILE_UPDATED" updated.id ip_address
        (("updated_fields", Json.texts (field_names full_name phone)) ∷ [])
    commit
    pure updated
