-- ===== src/Routers/Posting.antt =====
-- POST /transfers from the request to the response: what it takes to be answered with 201, and what
-- any other answer leaves.
use nexobank_backend.Models.{Host}
use nexobank_backend.Base.{ℕ, ◌+◌, ◌≡◌, ◌⊎◌, String, true, Option}
use nexobank_backend.Models.{User, Transaction, is_active}
use nexobank_backend.Session.{Env, Db, Session, Result, ok, err, Error, with_session}
use nexobank_backend.Dependencies.Guarding.{Names}
use nexobank_backend.Transfers.{Transfer}
use nexobank_backend.Schemas.{TransferRequest, TransactionResponse}
use nexobank_backend.Requests.{create_transfer}
use nexobank_backend.Routers.{post_transfer}

module _ (env : Env) (token : String) (body : TransferRequest) (ip : Option Host) (db : Db)
    (calls : ℕ) where
  abbrev pub begin : Session
  begin = record { db = db; committed = db; calls = calls }

  -- A transfer of the user whom the token names, between the accounts of the body.
  pub record Posted (stored : Db) : Type 0 where
    pub user : User
    pub names : Names env token begin user
    pub active : is_active user ≡ true
    pub p : Transfer
    pub as_user : p.requesting_user_id ≡ user.id
    pub from_account : p.from_account_id ≡ body.from_account_id
    pub to_account : p.to_account_id ≡ body.to_account_id
    pub tx : Transaction
    pub returned : (with_session (create_transfer env p) db (calls + 1)).0 ≡ ok tx
    pub stored_by : stored ≡ (with_session (create_transfer env p) db (calls + 1)).1

  abbrev pub outcome : Result TransactionResponse × Db × ℕ
  outcome = with_session (post_transfer env token body ip) db calls

  abbrev pub Ends : Type 0
  Ends =
      ((made : TransactionResponse) × (outcome.0 ≡ ok made) × Posted outcome.1)
      ⊎ ((e : Error) × (outcome.0 ≡ err e) × (outcome.1 ≡ db))
