-- ===== src/Accounts.antt =====
-- app/services/account_service.py
pub mod Deposits
pub mod Opening
use nexobank_backend.Models.{Host}
use nexobank_backend.Base.{
  ℕ, String, ◌==◌, not, Option, none, some, List, [], ◌∷◌, str_eq, upper, if◌then◌else◌,
}
use nexobank_backend.Models.{
  Account, AccountType, Transaction, TransactionType, TransactionStatus, Json,
}
use nexobank_backend.Money.{Decimal, to_cents, add_to_cents}
use nexobank_backend.Session.{
  Env, domain, account_not_found, unauthorized_resource, unsupported_currency, Action, pure,
  raise_if, or_raise, ◌>>=◌, ◌>>◌,
}
use nexobank_backend.Repositories.Accounts
use nexobank_backend.Repositories.Transactions
use nexobank_backend.Repositories.AuditLogs
use nexobank_backend.Transfers.{is_supported}

-- `AccountType.value`
abbrev pub type_value : AccountType → String
type_value AccountType.checking = "checking"
type_value AccountType.savings = "savings"

-- `description or "External deposit"`
abbrev pub or_default : Option String → String → Option String
or_default none d = some d
or_default (some s) d = if str_eq s "" then some d else some s

-- `get_user_accounts`
unfoldable pub get_user_accounts : Env → ℕ → Action (List Account)
get_user_accounts env user_id = Accounts.get_by_user_id env user_id

-- `get_account`
unfoldable pub get_account : ℕ → ℕ → Action Account
get_account account_id requesting_user_id = do
  found ← Accounts.get_by_id account_id
  account ← or_raise found (domain account_not_found)
  raise_if (not (account.user_id == requesting_user_id)) (domain unauthorized_resource)
  pure account

module _ (env : Env) where
  -- `create_account`
  unfoldable pub create_account : ℕ → String → AccountType → Action Account
  create_account user_id currency account_type = do
    raise_if (not (is_supported (upper currency))) (domain unsupported_currency)
    account ← Accounts.create env user_id (upper currency) account_type
    AuditLogs.log env "ACCOUNT_CREATED" (some user_id) (some "account") (some account.id) none (
        ("currency", Json.text (upper currency))
        ∷ ("type", Json.text (type_value account_type))
        ∷ [])
    pure account

  -- What `deposit_funds` does to the locked row: the new balance and the new row are flushed together.
  unfoldable pub credit :
      Account → ℕ → ℕ → Decimal → Option String → Option Host → Action Transaction
  credit account account_id requesting_user_id amount description ip_address = do
    Accounts.update_balance account.id (add_to_cents account.balance amount)
    tx ←
        Transactions.create env account_id TransactionType.deposit (to_cents amount)
          TransactionStatus.completed none none none (or_default description "External deposit")
    AuditLogs.log env "DEPOSIT_COMPLETED" (some requesting_user_id) (some "transaction")
        (some tx.id) ip_address
        (("amount", Json.decimal amount.coefficient amount.exponent)
          ∷ ("account_id", Json.uuid account_id)
          ∷ [])
    pure tx

  -- `deposit_funds`
  unfoldable pub deposit_funds : ℕ → ℕ → Decimal → Option String → Option Host → Action Transaction
  deposit_funds account_id requesting_user_id amount description ip_address = do
    found ← Accounts.get_by_id account_id
    account ← or_raise found (domain account_not_found)
    raise_if (not (account.user_id == requesting_user_id)) (domain unauthorized_resource)
    credit account account_id requesting_user_id amount description ip_address
