-- ===== src/Requests.antt =====
-- The write routes of app/api/v1/routers/transfers.py and accounts.py, for a user who is signed in, each
-- on its own session (`get_db` of app/api/v1/deps.py), and the states that they lead to.
pub mod Rollback
pub mod Reaching
use nexobank_backend.Models.{Host}
use nexobank_backend.Base.{ℕ, ℤ, pos, String, Bool, Option, leb_ℤ, ◌≡◌, [], not}
use nexobank_backend.Models.{Account, AccountType, Transaction}
use nexobank_backend.Money.{Decimal}
use nexobank_backend.Money.Rounding.{IsShort}
use nexobank_backend.Session.{
  Env, Db, Session, Result, http, Action, pure, raise_if, commit, with_session, ◌>>=◌, ◌>>◌,
}
use nexobank_backend.Transfers.{Transfer, execute_transfer}
use nexobank_backend.Accounts

module _ (env : Env) where
  -- `create_transfer`, up to the task that it queues (Routers/Queueing)
  unfoldable pub create_transfer : Transfer → Action Transaction
  create_transfer p = do pair ← execute_transfer env p; commit; pure pair.0

  -- `create_account`
  unfoldable pub create_account : ℕ → String → AccountType → Action Account
  create_account user_id currency type = do
    account ← Accounts.create_account env user_id currency type
    commit
    pure account

  -- `validate_amount` of `DepositRequest`
  abbrev pub is_positive : Decimal → Bool
  is_positive amount = not (leb_ℤ amount.coefficient (pos 0))

  -- `deposit`, with the check of its body
  unfoldable pub deposit : ℕ → ℕ → Decimal → Option String → Option Host → Action Transaction
  deposit account_id user_id amount description ip_address = do
    raise_if (not (is_positive amount)) (http 422)
    tx ← Accounts.deposit_funds env account_id user_id amount description ip_address
    commit
    pure tx

pub data Request : Type 0 where
  to_transfer : Transfer → Request
  to_open : ℕ → String → AccountType → Request
  to_deposit : ℕ → ℕ → Decimal → Option String → Option Host → Request

-- What a request leaves in the database: what it committed.
unfoldable pub serve : Env → Request → Db → ℕ → Db
serve env (to_transfer p) db calls = (with_session (create_transfer env p) db calls).1
serve env (to_open user_id currency type) db calls =
    (with_session (create_account env user_id currency type) db calls).1
serve env (to_deposit account_id user_id amount description ip) db calls =
    (with_session (deposit env account_id user_id amount description ip) db calls).1

-- A request that is no deposit of an amount with more than ten decimal places, for which Python and the
-- columns may round the balance and the row to different cents.
abbrev pub IsRounded : Request → Type 0
IsRounded (to_transfer p) = Unit
IsRounded (to_open user_id currency type) = Unit
IsRounded (to_deposit account_id user_id amount description ip) = IsShort amount

-- The databases that such requests lead to from one without accounts and transactions. The number of calls
-- of the generators before a request is any.
pub data Reachable (env : Env) : Db → Type 0 where
  at_start : (db : Db) → db.accounts ≡ [] → db.transactions ≡ [] → Reachable env db
  after :
      (db : Db) (r : Request) (calls : ℕ)
      → IsRounded r
      → Reachable env db
      → Reachable env (serve env r db calls)
