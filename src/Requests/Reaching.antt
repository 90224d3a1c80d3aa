-- ===== src/Requests/Reaching.antt =====
-- What holds of every database that requests lead to.
use mathlib.Core.Path.{subst}
use nexobank_backend.Models.{Host}
use nexobank_backend.Base.{
  ℕ, ◌≡◌, refl, pos, ◌≤ℤ◌, String, true, Option, arith, Bool-cases, inl, inr,
}
use nexobank_backend.Money.{Decimal}
use nexobank_backend.Money.Rounding.{IsShort}
use nexobank_backend.Session.{
  Env, Db, Session, Error, Result, ok, err, Action, pure, commit, with_session, ◌>>=◌, ◌>>◌,
}
use nexobank_backend.Session.Quiet.{Quiet}
use nexobank_backend.Ledger.{IsValid, ledger}
use nexobank_backend.Transfers.{Transfer, execute_transfer}
use nexobank_backend.Transfers.Safety.{execute_transfer-IsValid}
use nexobank_backend.Accounts
use nexobank_backend.Accounts.Deposits.{deposit_funds-IsValid}
use nexobank_backend.Accounts.Opening.{create_account-IsValid}
use nexobank_backend.Requests.{
  create_transfer, create_account, deposit, is_positive, Request, to_transfer, to_open, to_deposit,
  serve, IsRounded, Reachable, at_start, after,
}
use nexobank_backend.Requests.Rollback.{
  execute_transfer-Quiet, create_account-Quiet, deposit_funds-Quiet,
}

abbrev opened : Db → ℕ → Session
opened db calls = record { db = db; committed = db; calls = calls }

-- A service that does not commit and keeps the invariant when it returns, followed by a commit, keeps
-- the invariant of what is stored.
served-IsValid :
    {A B : Type 0} (m : Action A) (answer : A → B) (db : Db) (calls : ℕ)
    → Quiet m
    → ((a : A) (t : Session) → m (opened db calls) ≡ (ok a, t) → IsValid t.db)
    → IsValid db
    → IsValid (with_session (m >>= λ a. commit >> pure (answer a)) db calls).1
unfolding with_session
served-IsValid {A} {B} m answer db calls quiet keeps v = go (m (opened db calls)) refl
  where
    go :
        (r : Result A × Session)
        → m (opened db calls) ≡ r
        → IsValid (with_session (m >>= λ a. commit >> pure (answer a)) db calls).1
    go (ok a, t) e = subst IsValid (ground (arith, e)) (keeps a t e)
    go (err x, t) e = subst IsValid (ground (arith, e, quiet (opened db calls))) v

-- … and leaves what is stored alone when it raises.
served_rolled_back :
    {A B : Type 0} (m : Action A) (answer : A → B) (db : Db) (calls : ℕ) {e : Error}
    → Quiet m
    → (with_session (m >>= λ a. commit >> pure (answer a)) db calls).0 ≡ err e
    → (with_session (m >>= λ a. commit >> pure (answer a)) db calls).1 ≡ db
unfolding with_session
served_rolled_back {A} {B} m answer db calls {e} quiet h = go (m (opened db calls)) refl
  where
    go :
        (r : Result A × Session)
        → m (opened db calls) ≡ r
        → (with_session (m >>= λ a. commit >> pure (answer a)) db calls).1 ≡ db
    go (ok a, t) k = absurd (ground (arith, k))
    go (err x, t) k = ground (arith, k, quiet (opened db calls))

-- A transfer request that raises, wherever it does, leaves the stored database as it was.
pub create_transfer_atomic :
    (env : Env) (p : Transfer) (db : Db) (calls : ℕ) (e : Error)
    → (with_session (create_transfer env p) db calls).0 ≡ err e
    → (with_session (create_transfer env p) db calls).1 ≡ db
unfolding create_transfer
create_transfer_atomic env p db calls e h =
    served_rolled_back (execute_transfer env p) (λ pair. pair.0) db calls {e = e}
      (execute_transfer-Quiet env p) h

-- a deposit that its body's check lets through is of a non-negative amount
positive_amount :
    (env : Env) (amount : Decimal) → is_positive env amount ≡ true → pos 0 ≤ℤ amount.coefficient
positive_amount env amount h = ground (arith)

deposit_served :
    (env : Env) (account_id user_id : ℕ) (amount : Decimal) (description : Option String)
    (ip : Option Host) (db : Db) (calls : ℕ)
    → IsShort amount
    → IsValid db
    → IsValid (serve env (to_deposit account_id user_id amount description ip) db calls)
unfolding serve deposit with_session
deposit_served env account_id user_id amount description ip db calls short v =
    elim (Bool-cases (is_positive env amount)) [
      | inl e ↦ subst IsValid (ground (arith, e)) (
          served-IsValid (Accounts.deposit_funds env account_id user_id amount description ip)
            (λ tx. tx) db calls (deposit_funds-Quiet env account_id user_id amount description ip)
            (λ tx t h.
              deposit_funds-IsValid env account_id user_id amount description ip (opened db calls) v
                (positive_amount env amount e) short {tx = tx} {t = t} h)
            v)
      | inr e ↦ subst IsValid (ground (arith, e)) v
    ]

-- A request to transfer, to open an account or to deposit an amount of at most ten decimal places,
-- whether it returns or raises, keeps the invariant of the stored database.
pub serve-IsValid :
    (env : Env) (r : Request) (db : Db) (calls : ℕ)
    → IsRounded r
    → IsValid db
    → IsValid (serve env r db calls)
unfolding serve create_transfer create_account deposit
serve-IsValid env (to_transfer p) db calls rounded v =
    served-IsValid (execute_transfer env p) (λ pair. pair.0) db calls (execute_transfer-Quiet env p)
      (λ pair t h. execute_transfer-IsValid env p (opened db calls) v {pair = pair} {t = t} h) v
serve-IsValid env (to_open user_id currency type) db calls rounded v =
    served-IsValid (Accounts.create_account env user_id currency type) (λ a. a) db calls
      (create_account-Quiet env user_id currency type)
      (λ a t h.
        create_account-IsValid env user_id currency type (opened db calls) {a = a} {t = t} h v)
      v
serve-IsValid env (to_deposit account_id user_id amount description ip) db calls rounded v =
    deposit_served env account_id user_id amount description ip db calls rounded v

-- Every database that transfers, new accounts and deposits of at most ten decimal places lead to, in any
-- order and with any failures between, from a database without accounts and transactions: ids and keys are unique, no balance is
-- negative, and every balance is the sum of the account's ledger entries.
pub Reachable-IsValid : (env : Env) (db : Db) → Reachable env db → IsValid db
unfolding ledger
Reachable-IsValid env db (at_start _ no_accounts no_rows) = record {
  account_ids = rw no_accounts tt;
  transaction_ids = rw no_rows tt;
  keys = rw no_rows tt;
  nonneg = λ k a h. ground (arith, no_accounts);
  reconciled = λ k a h. ground (arith, no_accounts);
  unowned = λ k h. ground (arith, no_rows);
}
Reachable-IsValid env _ (after db r calls rounded h) =
    serve-IsValid env r db calls rounded (Reachable-IsValid env db h)
