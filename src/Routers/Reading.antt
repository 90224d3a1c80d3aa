-- ===== src/Routers/Reading.antt =====
-- The routes that read for a signed-in user: users.py, accounts.py, transactions.py, cards.py and
-- device_tokens.py of app/api/v1/routers/.
use nexobank_backend.Base.{
  ℕ, ◌&&◌, not, String, Bool, true, false, Option, none, some, List, leb, length,
}
use nexobank_backend.Models.{User}
use nexobank_backend.Session.{Env, http, Action, pure, raise_if, ◌>>=◌, ◌>>◌}
use nexobank_backend.Dependencies.{get_current_active_user}
use nexobank_backend.Accounts
use nexobank_backend.Transfers
use nexobank_backend.Cards
use nexobank_backend.Devices
use nexobank_backend.Schemas.{
  map, TransactionListResponse, transaction_response, AccountResponse, account_response,
  AccountListResponse, CardResponse, card_response, UserResponse, user_response,
  DeviceTokenListResponse, device_token_response,
}

-- the routes
pub data Query : Type 0 where
  my_profile my_accounts my_device_tokens : Query
  account_of cards_of : ℕ → Query
  transactions_of : ℕ → ℕ → Option String → Query

pub data View : Type 0 where
  me : UserResponse → View
  accounts : AccountListResponse → View
  account : AccountResponse → View
  transactions : TransactionListResponse → View
  cards : List CardResponse → View
  device_tokens : DeviceTokenListResponse → View

-- `next_cursor is not None`
abbrev pub is_some : Option String → Bool
is_some none = false
is_some (some s) = true

-- `get_me`
unfoldable pub get_me : User → Action UserResponse
get_me user = pure (user_response user)

-- `list_accounts`
unfoldable pub list_accounts : Env → User → Action AccountListResponse
list_accounts env user = do
  rows ← Accounts.get_user_accounts env user.id
  pure (record { items = map account_response rows; total = length rows })

-- `get_account`
unfoldable pub get_account : User → ℕ → Action AccountResponse
get_account user account_id = do
  row ← Accounts.get_account account_id user.id
  pure (account_response row)

-- `list_transactions`
unfoldable pub list_transactions :
    Env → User → ℕ → ℕ → Option String → Action TransactionListResponse
list_transactions env user account_id limit cursor = do
  raise_if (not (leb 1 limit && leb limit 100)) (http 422)
  page ← Transfers.get_account_transactions env account_id user.id limit cursor
  pure (record {
    items = map transaction_response page.0;
    next_cursor = page.1;
    has_more = is_some page.1;
  })

-- `list_cards`
unfoldable pub list_cards : Env → User → ℕ → Action (List CardResponse)
list_cards env user account_id = do
  rows ← Cards.get_account_cards env account_id user.id
  pure (map card_response rows)

-- `list_device_tokens`
unfoldable pub list_device_tokens : Env → User → Action DeviceTokenListResponse
list_device_tokens env user = do
  rows ← Devices.list_device_tokens env user.id
  pure (record { items = map device_token_response rows; total = length rows })

module _ (env : Env) where
  -- a route, for the user that the token stands for
  unfoldable pub read_for : User → Query → Action View
  read_for user my_profile = do r ← get_me user; pure (me r)
  read_for user my_accounts = do r ← list_accounts env user; pure (accounts r)
  read_for user my_device_tokens = do r ← list_device_tokens env user; pure (device_tokens r)
  read_for user (account_of k) = do r ← get_account user k; pure (account r)
  read_for user (cards_of k) = do r ← list_cards env user k; pure (cards r)
  read_for user (transactions_of k limit cursor) = do
    r ← list_transactions env user k limit cursor
    pure (transactions r)

  -- `Depends(get_current_active_user)`, then the route
  unfoldable pub read : String → Query → Action View
  read token q = do user ← get_current_active_user env token; read_for user q
