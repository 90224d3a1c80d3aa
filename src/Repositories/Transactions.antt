-- ===== src/Repositories/Transactions.antt =====
-- app/repositories/transaction_repository.py, but for the pages
pub mod Paging
use nexobank_backend.Base.{
  ℕ, ℤ, String, Bool, true, false, ◌||◌, not, Option, none, some, List, [], ◌∷◌, ◌++◌, ◌==◌, leb,
  is_text, length_text, select_one, has_row, if◌then◌else◌,
}
use nexobank_backend.Models.{Transaction, TransactionType, TransactionStatus}
use nexobank_backend.Money.{fits_numeric}
use nexobank_backend.Session.{
  Env, Error, integrity_error, data_error, Action, ok, err, draw, gets, ◌>>=◌,
}

-- A text that the column `String(n)` holds, or NULL.
abbrev pub fits_text : ℕ → Option String → Bool
fits_text n none = true
fits_text n (some s) = leb (length_text s) n

abbrev pub same_id : Transaction → Transaction → Bool
same_id a b = a.id == b.id

-- Two NULLs do not collide in a unique index.
abbrev pub same_key_text : Option String → Option String → Bool
same_key_text none k = false
same_key_text (some s) k = is_text s k

abbrev pub same_key : Transaction → Transaction → Bool
same_key a b = same_key_text a.idempotency_key b.idempotency_key

-- What the table has against a new row: a value that a column cannot hold, or a taken id or key.
unfoldable pub refusal : List Transaction → Transaction → Option Error
refusal rows tx =
    if not (fits_numeric tx.amount)
    then some data_error
    else if not (fits_text 64 tx.idempotency_key)
    then some data_error
    else if not (fits_text 255 tx.description)
    then some data_error
    else if has_row (same_id tx) rows || has_row (same_key tx) rows
    then some integrity_error
    else none

-- `db.add(tx); await db.flush()`
unfoldable pub flush_row : Transaction → Action Transaction
flush_row tx s = elim (refusal s.db.transactions tx) [
  | none ↦ (ok tx, record s { db = record s.db { transactions = s.db.transactions ++ tx ∷ [] } })
  | some e ↦ (err e, s)
]

module _ (env : Env) where
  -- `TransactionRepository.create`
  unfoldable pub create :
      ℕ
      → TransactionType
      → ℤ
      → TransactionStatus
      → Option ℕ
      → Option String
      → Option ℕ
      → Option String
      → Action Transaction
  create account_id type amount status counterparty_account_id idempotency_key reference
        description =
      do
        id ← draw env.uuid4
        created_at ← draw env.now
        flush_row (record {
          id = id;
          created_at = created_at;
          account_id = account_id;
          counterparty_account_id = counterparty_account_id;
          type = type;
          amount = amount;
          status = status;
          idempotency_key = idempotency_key;
          reference_transaction_id = reference;
          description = description;
        })

-- `get_by_id`
unfoldable pub get_by_id : ℕ → Action (Option Transaction)
get_by_id transaction_id = gets (λ db. select_one (λ t. t.id == transaction_id) db.transactions)

-- the condition `Transaction.idempotency_key == key`
abbrev pub has_key : String → Transaction → Bool
has_key key t = is_text key t.idempotency_key

-- `get_by_idempotency_key`
unfoldable pub get_by_idempotency_key : String → Action (Option Transaction)
get_by_idempotency_key key = gets (λ db. select_one (has_key key) db.transactions)
