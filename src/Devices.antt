-- ===== src/Devices.antt =====
-- app/services/device_token_service.py
pub mod Registering
pub mod Removing
use nexobank_backend.Models.{Host}
use nexobank_backend.Base.{ℕ, String, Bool, true, Option, none, some, List, [], ◌∷◌, not, ◌==◌}
use nexobank_backend.Models.{DeviceToken, DevicePlatform, Json}
use nexobank_backend.Session.{
  Env, domain, unauthorized_resource, Action, pure, raise, raise_if, commit, ◌>>=◌, ◌>>◌,
}
use nexobank_backend.Repositories.Devices
use nexobank_backend.Repositories.AuditLogs

-- `DevicePlatform.value`
abbrev pub platform_value : DevicePlatform → String
platform_value DevicePlatform.ios = "ios"
platform_value DevicePlatform.android = "android"
platform_value DevicePlatform.web = "web"

-- `list_device_tokens`
unfoldable pub list_device_tokens : Env → ℕ → Action (List DeviceToken)
list_device_tokens env user_id = Devices.get_active_by_user env user_id

module _ (env : Env) where
  -- `register_device_token`
  unfoldable pub register_device_token :
      ℕ → String → DevicePlatform → Option Host → Action DeviceToken
  register_device_token user_id token platform ip_address = do
    device_token ← Devices.upsert env user_id token platform
    AuditLogs.log env "DEVICE_TOKEN_REGISTERED" (some user_id) (some "device_token")
        (some device_token.id) ip_address (("platform", Json.text (platform_value platform)) ∷ [])
    commit
    pure device_token

  -- the end of `remove_device_token`, after the row is looked up
  unfoldable pub remove_found : Option DeviceToken → ℕ → ℕ → Option Host → Action (Unit {0})
  remove_found none token_id requesting_user_id ip_address = raise (domain unauthorized_resource)
  remove_found (some token) token_id requesting_user_id ip_address = do
    raise_if (not (token.user_id == requesting_user_id)) (domain unauthorized_resource)
    Devices.deactivate token
    AuditLogs.log env "DEVICE_TOKEN_REMOVED" (some requesting_user_id) (some "device_token")
        (some token_id) ip_address []
    commit

  -- `remove_device_token`
  unfoldable pub remove_device_token : ℕ → ℕ → Option Host → Action (Unit {0})
  remove_device_token token_id requesting_user_id ip_address = do
    token ← Devices.get_by_id token_id
    remove_found token token_id requesting_user_id ip_address
