-- ===== src/Dependencies.antt =====
-- app/api/v1/deps.py: who a request comes from
pub mod Guarding
use nexobank_backend.Base.{ℕ, String, Bool, Option, not, str_eq}
use nexobank_backend.Models.{User, is_active}
use nexobank_backend.Session.{Env, http, Action, pure, raise_if, or_raise, ◌>>=◌, ◌>>◌}
use nexobank_backend.Security.{decode_access_token}
use nexobank_backend.Repositories.Users

module _ (env : Env) where
  -- `get_current_user`, of the token in the `Authorization` header
  unfoldable pub get_current_user : String → Action User
  get_current_user token = do
    decoded ← decode_access_token env token
    subject ← or_raise decoded (http 401)
    user_id ← or_raise (env.parse_uuid subject) (http 401)
    found ← Users.get_by_id user_id
    or_raise found (http 401)

  -- `get_current_active_user`
  unfoldable pub get_current_active_user : String → Action User
  get_current_active_user token = do
    user ← get_current_user token
    raise_if (not (is_active user)) (http 403)
    pure user

  -- `verify_internal_api_key`
  unfoldable pub verify_internal_api_key : String → Action (Unit {0})
  verify_internal_api_key api_key =
      raise_if (not (str_eq api_key env.settings.internal_api_key)) (http 403)
