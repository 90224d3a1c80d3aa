-- ===== src/Routers/Auth.antt =====
-- app/api/v1/routers/auth.py, with the checks of the bodies
use nexobank_backend.Models.{Host}
use nexobank_backend.Base.{String, Option, none, if◌then◌else◌}
use nexobank_backend.Session.{Env, Action, pure, ◌>>=◌, ◌>>◌}
use nexobank_backend.Dependencies.{get_current_active_user}
use nexobank_backend.Auth as Service
use nexobank_backend.Schemas.{TokenResponse, ForgotPasswordResponse, email_str, password_strength}

abbrev pub token_response : String → String → TokenResponse
token_response access refresh = record {
  access_token = access;
  refresh_token = refresh;
  token_type = "bearer";
}

module _ (env : Env) where
  -- `register`
  unfoldable pub register :
      String → String → String → Option String → Option Host → Action TokenResponse
  register email password full_name phone ip_address = do
    address ← email_str env email
    password_strength env password
    created ← Service.register_user env address password full_name phone ip_address
    pure (token_response created.1 created.2)

  -- `login`
  unfoldable pub login : String → String → Option Host → Action TokenResponse
  login email password ip_address = do
    address ← email_str env email
    found ← Service.login_user env address password ip_address
    pure (token_response found.1 found.2)

  -- `refresh`
  unfoldable pub refresh : String → Action TokenResponse
  refresh refresh_token = do
    tokens ← Service.refresh_tokens env refresh_token
    pure (token_response tokens.0 tokens.1)

  -- `logout`
  unfoldable pub logout : String → String → Option Host → Action (Unit {0})
  logout token refresh_token ip_address = do
    user ← get_current_active_user env token
    Service.logout_user env refresh_token user.id ip_address

  -- `forgot_password`
  unfoldable pub forgot_password : String → Option Host → Action ForgotPasswordResponse
  forgot_password email ip_address = do
    address ← email_str env email
    asked ← Service.request_password_reset env address ip_address
    pure (record {
      message = "If that email is registered you will receive a reset link shortly.";
      reset_token = (if asked.1 then asked.0 else none);
    })

  -- `reset_password`
  unfoldable pub reset_password : String → String → Option Host → Action (Unit {0})
  reset_password token new_password ip_address = do
    password_strength env new_password
    Service.confirm_password_reset env token new_password ip_address
