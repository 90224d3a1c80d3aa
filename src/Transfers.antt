-- ===== src/Transfers.antt =====
-- app/services/transaction_service.py, but for the pages of `get_account_transactions`: the steps of
-- `execute_transfer`, each an action, and their composition.
pub mod Guards
pub mod Locking
pub mod Outcome
pub mod Success
pub mod Accounting
pub mod Safety
pub mod Idempotency
pub mod Refusals
pub mod History
use nexobank_backend.Models.{Host}
use nexobank_backend.Base.{
  List, ℕ, ℤ, pos, ◌+ℤ◌, ◌-ℤ◌, leb_ℤ, ltb_ℤ, String, ◌<>◌, Bool, true, false, ◌||◌, not, Option,
  none, some, [], ◌∷◌, ◌==◌, leb, str_eq, upper, select_one, select_all, length, order_by,
}
use nexobank_backend.Models.{
  Account, AccountStatus, Transaction, TransactionType, TransactionStatus, Json,
}
use nexobank_backend.Session.{
  Env, domain, account_not_found, account_frozen, insufficient_funds, unauthorized_resource,
  unsupported_currency, Action, gets, pure, raise_if, or_raise, ◌>>=◌, ◌>>◌,
}
use nexobank_backend.Repositories.Accounts
use nexobank_backend.Repositories.Accounts.{has_id}
use nexobank_backend.Repositories.Transactions
use nexobank_backend.Repositories.AuditLogs
use nexobank_backend.Repositories.Transactions.Paging.{get_by_account_id_paginated}

-- The arguments of `execute_transfer`; the amount is in cents, as the schema leaves it.
pub record Transfer : Type 0 where
  pub from_account_id : ℕ
  pub to_account_id : ℕ
  pub amount : ℤ
  pub currency : String
  pub idempotency_key : String
  pub requesting_user_id : ℕ
  pub description : Option String
  pub ip_address : Option Host

abbrev pub Pair : Type 0
Pair = Transaction × Transaction

-- `SUPPORTED_CURRENCIES`
unfoldable pub is_supported : String → Bool
is_supported c = str_eq c "MXN" || str_eq c "USD"

abbrev pub is_active_status : AccountStatus → Bool
is_active_status AccountStatus.active = true
is_active_status AccountStatus.frozen = false
is_active_status AccountStatus.closed = false

-- `_validate_account_active`
unfoldable pub validate_account_active : Account → Action (Unit {0})
validate_account_active account =
    raise_if (not (is_active_status account.status)) (domain account_frozen)

-- `_validate_account_owner`
unfoldable pub validate_account_owner : Account → ℕ → Action (Unit {0})
validate_account_owner account user_id =
    raise_if (not (account.user_id == user_id)) (domain unauthorized_resource)

-- the key of the companion row
abbrev pub companion : String → String
companion key = key <> "_in"

-- Step 1, when the key is known
unfoldable pub replay : Transfer → Transaction → Action Pair
replay p existing_tx_out = do
  existing_tx_in ← Transactions.get_by_idempotency_key (companion p.idempotency_key)
  tx_in ← or_raise existing_tx_in (domain account_not_found)
  pure (existing_tx_out, tx_in)

-- Step 2
unfoldable pub validate_inputs : Transfer → Action (Unit {0})
validate_inputs p = do
  raise_if (leb_ℤ p.amount (pos 0)) (domain insufficient_funds)
  raise_if (not (is_supported (upper p.currency))) (domain unsupported_currency)
  raise_if (p.from_account_id == p.to_account_id) (domain account_not_found)

-- Step 3
unfoldable pub check_owner : Transfer → Action (Unit {0})
check_owner p = do
  found ← Accounts.get_by_id p.from_account_id
  account ← or_raise found (domain account_not_found)
  validate_account_owner account p.requesting_user_id

-- `Account.id.in_([first_id, second_id])`
abbrev pub in_pair : ℕ → ℕ → Account → Bool
in_pair i j a = has_id i a || has_id j a

-- `ORDER BY accounts.id`: the order in which the row locks are taken
abbrev pub by_ascending_id : Account → Account → Bool
by_ascending_id a b = leb a.id b.id

-- the end of `_lock_accounts_for_update`: the two rows by their ids
abbrev pub pair_of : ℕ → ℕ → List Account → Action (Account × Account)
pair_of id1 id2 accounts = do
  raise_if (not (length accounts == 2)) (domain account_not_found)
  account1 ← or_raise (select_one (has_id id1) accounts) (domain account_not_found)
  account2 ← or_raise (select_one (has_id id2) accounts) (domain account_not_found)
  pure (account1, account2)

-- `_lock_accounts_for_update`
unfoldable pub lock_accounts_for_update : ℕ → ℕ → Action (Account × Account)
lock_accounts_for_update id1 id2 = do
  accounts ← gets (λ db. order_by by_ascending_id (select_all (in_pair id1 id2) db.accounts))
  pair_of id1 id2 accounts

-- Step 5
unfoldable pub check_rules : Transfer → Account → Account → Action (Unit {0})
check_rules p source target = do
  validate_account_active source
  validate_account_active target
  raise_if (not (str_eq source.currency (upper p.currency))) (domain unsupported_currency)
  raise_if (not (str_eq target.currency (upper p.currency))) (domain unsupported_currency)
  raise_if (ltb_ℤ source.balance p.amount) (domain insufficient_funds)

module _ (env : Env) where
  -- Steps 6 to 8
  unfoldable pub apply_transfer : Transfer → Account → Account → Action Pair
  apply_transfer p source target = do
    Accounts.update_balance source.id (source.balance -ℤ p.amount)
    Accounts.update_balance target.id (target.balance +ℤ p.amount)
    tx_out ←
        Transactions.create env p.from_account_id TransactionType.transfer_out p.amount
          TransactionStatus.completed (some p.to_account_id) (some p.idempotency_key) none
          p.description
    tx_in ←
        Transactions.create env p.to_account_id TransactionType.transfer_in p.amount
          TransactionStatus.completed (some p.from_account_id) (some (companion p.idempotency_key))
          none p.description
    AuditLogs.log env "TRANSFER_COMPLETED" (some p.requesting_user_id) (some "transaction")
        (some tx_out.id) p.ip_address
        (("amount", Json.cents p.amount)
          ∷ ("currency", Json.text (upper p.currency))
          ∷ ("from_account", Json.uuid p.from_account_id)
          ∷ ("to_account", Json.uuid p.to_account_id)
          ∷ ("tx_out_id", Json.uuid tx_out.id)
          ∷ ("tx_in_id", Json.uuid tx_in.id)
          ∷ [])
    pure (tx_out, tx_in)

  -- Steps 2 to 8, for a key that is not known
  unfoldable pub execute_new : Transfer → Action Pair
  execute_new p = do
    validate_inputs p
    check_owner p
    accounts ← lock_accounts_for_update p.from_account_id p.to_account_id
    check_rules p accounts.0 accounts.1
    apply_transfer p accounts.0 accounts.1

  -- `execute_transfer`
  unfoldable pub execute_transfer : Transfer → Action Pair
  execute_transfer p = do
    existing ← Transactions.get_by_idempotency_key p.idempotency_key
    elim existing [ none ↦ execute_new p | some tx_out ↦ replay p tx_out ]

  -- `get_account_transactions`
  unfoldable pub get_account_transactions :
      ℕ → ℕ → ℕ → Option String → Action (List Transaction × Option String)
  get_account_transactions account_id requesting_user_id limit cursor = do
    found ← Accounts.get_by_id account_id
    account ← or_raise found (domain account_not_found)
    raise_if (not (account.user_id == requesting_user_id)) (domain unauthorized_resource)
    get_by_account_id_paginated env account_id limit cursor
