-- ===== src/Ledger.antt =====
-- The double-entry ledger: what the rows of `transactions` say of each account, the totals by
-- currency, and the invariant of accounts and transactions (app/models/account.py, transaction.py).
pub mod Balances
pub mod Appending
use nexobank_backend.Base.{
  ℕ, ◌≡◌, ℤ, pos, ◌+ℤ◌, ◌-ℤ◌, ◌≤ℤ◌, String, none, some, List, [], ◌∷◌, ◌==◌, str_eq, select_one,
  IsUnique, if◌then◌else◌,
}
use nexobank_backend.Models.{Account, Transaction, TransactionType, TransactionStatus}
use nexobank_backend.Session.{Db}
use nexobank_backend.Repositories.Accounts
use nexobank_backend.Repositories.Accounts.{has_id}
use nexobank_backend.Repositories.Transactions

-- What a row of a kind adds to its account.
abbrev pub signed : TransactionType → ℤ → ℤ
signed TransactionType.deposit amount = amount
signed TransactionType.transfer_in amount = amount
signed TransactionType.withdrawal amount = pos 0 -ℤ amount
signed TransactionType.transfer_out amount = pos 0 -ℤ amount

-- Only a completed row counts.
abbrev pub contribution : TransactionStatus → TransactionType → ℤ → ℤ
contribution TransactionStatus.completed type amount = signed type amount
contribution TransactionStatus.pending type amount = pos 0
contribution TransactionStatus.reversed type amount = pos 0

abbrev pub entry : ℕ → Transaction → ℤ
entry k tx = if tx.account_id == k then contribution tx.status tx.type tx.amount else pos 0

-- the sum of the entries of an account
unfoldable pub ledger : ℕ → List Transaction → ℤ
ledger k [] = pos 0
ledger k (tx ∷ rows) = entry k tx +ℤ ledger k rows

abbrev pub balance_in : String → Account → ℤ
balance_in currency a = if str_eq a.currency currency then a.balance else pos 0

-- the money of a currency
unfoldable pub total : String → List Account → ℤ
total currency [] = pos 0
total currency (a ∷ rows) = balance_in currency a +ℤ total currency rows

-- The invariant: ids and keys are unique, no balance is negative, every balance is what the ledger
-- says, and the ledger has nothing for an account that does not exist.
pub record IsValid (db : Db) : Type 0 where
  pub account_ids : IsUnique Accounts.same_id db.accounts
  pub transaction_ids : IsUnique Transactions.same_id db.transactions
  pub keys : IsUnique Transactions.same_key db.transactions
  pub nonneg :
      (k : ℕ) (a : Account) → select_one (has_id k) db.accounts ≡ some a → pos 0 ≤ℤ a.balance
  pub reconciled :
      (k : ℕ) (a : Account)
      → select_one (has_id k) db.accounts ≡ some a
      → a.balance ≡ ledger k db.transactions
  -- the foreign key of a transaction's account
  pub unowned :
      (k : ℕ) → select_one (has_id k) db.accounts ≡ none → ledger k db.transactions ≡ pos 0
