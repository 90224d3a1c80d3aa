-- ===== src/Examples/Serving.antt =====
-- Requests on the small bank.
use nexobank_backend.Base.{◌≡◌, refl, []}
use nexobank_backend.Models.{AccountType}
use nexobank_backend.Session.{Db, err, domain, insufficient_funds, with_session}
use nexobank_backend.Ledger.{IsValid}
use nexobank_backend.Requests.{create_transfer, to_open, serve, Reachable, at_start, after}
use nexobank_backend.Requests.Reaching.{Reachable-IsValid}
use nexobank_backend.Examples.Moving.{too_much}
use nexobank_backend.Transfers.{execute_transfer}
use nexobank_backend.Repositories.Transactions
use nexobank_backend.Transfers.{execute_new}
use nexobank_backend.Transfers.{validate_inputs}
use nexobank_backend.Transfers.{is_supported}
use nexobank_backend.Base.{upper}
use nexobank_backend.Transfers.{check_owner}
use nexobank_backend.Repositories.Accounts
use nexobank_backend.Transfers.{validate_account_owner}
use nexobank_backend.Transfers.{lock_accounts_for_update}
use nexobank_backend.Transfers.{check_rules}
use nexobank_backend.Transfers.{validate_account_active}
use nexobank_backend.Scenario.{env, bank}

-- the users, before any account
abbrev empty : Db
empty = record bank { accounts = []; transactions = [] }

first_account : Reachable env (serve env (to_open 1 "mxn" AccountType.checking) empty 0)
first_account = after empty (to_open 1 "mxn" AccountType.checking) 0 tt (at_start empty refl refl)

Reachable-IsValid_example : IsValid (serve env (to_open 1 "mxn" AccountType.checking) empty 0)
Reachable-IsValid_example =
    Reachable-IsValid env (serve env (to_open 1 "mxn" AccountType.checking) empty 0) first_account

overdraft_raises :
    (with_session (create_transfer env too_much) bank 0).0 ≡ err (domain insufficient_funds)
unfolding create_transfer with_session execute_transfer Transactions.get_by_idempotency_key
    execute_new validate_inputs is_supported upper check_owner Accounts.get_by_id
    validate_account_owner lock_accounts_for_update check_rules validate_account_active
overdraft_raises = refl
