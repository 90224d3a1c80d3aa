-- ===== src/Repositories/Accounts.antt =====
-- app/repositories/account_repository.py
use nexobank_backend.Base.{
  ℕ, zero, suc, ℤ, pos, String, ◌<>◌, Bool, ◌||◌, Option, none, some, List, [], ◌∷◌, ◌++◌, ◌==◌,
  str_eq, upper, select_one, select_all, update_where, has_row, if◌then◌else◌,
}
use nexobank_backend.Models.{Account, AccountStatus, AccountType}
use nexobank_backend.Money.{fits_numeric}
use nexobank_backend.Session.{
  Env, integrity_error, data_error, runtime_error, Action, ok, err, draw, gets, pure, raise, ◌>>=◌,
}

abbrev pub has_id : ℕ → Account → Bool
has_id k a = a.id == k

abbrev pub same_id : Account → Account → Bool
same_id a b = a.id == b.id

-- `get_by_id`, and `get_by_id_for_update`: the lock changes nothing that one session can see
unfoldable pub get_by_id : ℕ → Action (Option Account)
get_by_id account_id = gets (λ db. select_one (has_id account_id) db.accounts)

-- `get_by_user_id`
unfoldable pub get_by_user_id : Env → ℕ → Action (List Account)
get_by_user_id env user_id s =
    (ok (env.account_scan s.calls (select_all (λ a. a.user_id == user_id) s.db.accounts)).0, s)

-- `get_by_account_number`
unfoldable pub get_by_account_number : String → Action (Option Account)
get_by_account_number number =
    gets (λ db. select_one (λ a. str_eq a.account_number number) db.accounts)

-- `account.balance = …; await db.flush()`, on the row with the account's id
unfoldable pub update_balance : ℕ → ℤ → Action (Unit {0})
update_balance k balance s =
    if fits_numeric balance
    then (
      ok tt,
      record s {
        db = record s.db {
          accounts = update_where (has_id k) (λ a. record a { balance = balance }) s.db.accounts;
        };
      },
    )
    else (err data_error, s)

-- `update_status`
unfoldable pub update_status : ℕ → AccountStatus → Action (Unit {0})
update_status k status s = (
  ok tt,
  record s {
    db = record s.db {
      accounts = update_where (has_id k) (λ a. record a { status = status }) s.db.accounts;
    };
  },
)

-- `db.add(account); await db.flush()`: the primary key and the unique `account_number`
unfoldable pub flush_row : Account → Action Account
flush_row a s =
    if has_row (same_id a) s.db.accounts
      || has_row (λ b. str_eq a.account_number b.account_number) s.db.accounts
    then (err integrity_error, s)
    else (ok a, record s { db = record s.db { accounts = s.db.accounts ++ a ∷ [] } })

module _ (env : Env) where
  -- The loop of `_generate_unique_account_number`, with the rounds that are left.
  unfoldable pub generate_account_number : ℕ → String → Action String
  unfolding get_by_account_number
  generate_account_number zero prefix = raise runtime_error
  generate_account_number (suc rounds) prefix = do
    digits ← draw (λ n. env.random_digits n 12)
    existing ← get_by_account_number (prefix <> digits)
    elim existing [
      | none ↦ pure (prefix <> digits)
      | some _ ↦ generate_account_number rounds prefix
    ]

  -- `create`
  unfoldable pub create : ℕ → String → AccountType → Action Account
  create user_id currency type = do
    account_number ← generate_account_number 10 (upper currency)
    id ← draw env.uuid4
    created_at ← draw env.now
    flush_row (record {
      id = id;
      created_at = created_at;
      user_id = user_id;
      account_number = account_number;
      currency = upper currency;
      balance = pos 0;
      status = AccountStatus.active;
      type = type;
    })
