-- ===== src/Routers.antt =====
-- app/api/v1/routers/: the other routes, each an action on the session of its request. A route that
-- needs a signed-in user has the access token as its first argument.
pub mod Auth
pub mod Reading
pub mod Internal
pub mod Views
pub mod Socket
pub mod Forwarding
pub mod Posting
pub mod Queueing
pub mod Joining
pub mod Totals
pub mod Risk
use nexobank_backend.Models.{Host}
use nexobank_backend.Base.{
  ℕ, String, Bool, true, false, ◌&&◌, not, Option, none, some, List, leb, length,
}
use nexobank_backend.Models.{Account, AccountType, Transaction, CardType, DevicePlatform}
use nexobank_backend.Money.{Decimal}
use nexobank_backend.Session.{
  Env, http, Action, gets, pure, raise_if, or_raise, commit, ◌>>=◌, ◌>>◌,
}
use nexobank_backend.Dependencies.{get_current_active_user}
use nexobank_backend.Auth.{update_user_profile}
use nexobank_backend.Cards
use nexobank_backend.Devices
use nexobank_backend.Requests
use nexobank_backend.Schemas.{
  TransferRequest, validate_transfer, validate_currency, TransactionResponse, transaction_response,
  AccountResponse, account_response, CardResponse, card_response, UserResponse, user_response,
  DeviceTokenResponse, device_token_response,
}

module _ (env : Env) where
  -- `create_transfer` of transfers.py, with the checks of its body
  unfoldable pub post_transfer : String → TransferRequest → Option Host → Action TransactionResponse
  post_transfer token body ip_address = do
    user ← get_current_active_user env token
    p ← validate_transfer body user.id ip_address
    tx ← Requests.create_transfer env p
    pure (transaction_response tx)

  -- `create_account` of accounts.py
  unfoldable pub post_account : String → String → AccountType → Action AccountResponse
  post_account token currency type = do
    user ← get_current_active_user env token
    checked ← validate_currency currency
    account ← Requests.create_account env user.id checked type
    pure (account_response account)

  -- `deposit` of accounts.py
  unfoldable pub post_deposit :
      String → ℕ → Decimal → Option String → Option Host → Action TransactionResponse
  post_deposit token account_id amount description ip_address = do
    user ← get_current_active_user env token
    tx ← Requests.deposit env account_id user.id amount description ip_address
    pure (transaction_response tx)

  -- `update_me` of users.py
  unfoldable pub update_me :
      String → Option String → Option String → Option Host → Action UserResponse
  update_me token full_name phone ip_address = do
    user ← get_current_active_user env token
    updated ← update_user_profile env user full_name phone ip_address
    pure (user_response updated)

  -- `create_card` of cards.py
  unfoldable pub create_card : String → ℕ → CardType → Action CardResponse
  create_card token account_id type = do
    user ← get_current_active_user env token
    card ← Cards.create_card env account_id user.id type
    commit
    pure (card_response card)

  -- `freeze_card` of cards.py
  unfoldable pub freeze_card : String → ℕ → Bool → Option Host → Action CardResponse
  freeze_card token card_id frozen ip_address = do
    user ← get_current_active_user env token
    card ← Cards.set_card_frozen env card_id frozen user.id ip_address
    commit
    pure (card_response card)

  -- `register_device_token` of device_tokens.py
  unfoldable pub register_device_token :
      String → String → DevicePlatform → Option Host → Action DeviceTokenResponse
  register_device_token token device platform ip_address = do
    user ← get_current_active_user env token
    row ← Devices.register_device_token env user.id device platform ip_address
    pure (device_token_response row)

  -- `remove_device_token` of device_tokens.py
  unfoldable pub remove_device_token : String → ℕ → Option Host → Action (Unit {0})
  remove_device_token token token_id ip_address = do
    user ← get_current_active_user env token
    Devices.remove_device_token env token_id user.id ip_address
