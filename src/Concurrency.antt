-- ===== src/Concurrency.antt =====
-- Transfers that run at the same time (`create_transfer` of app/api/v1/routers/transfers.py over
-- `execute_transfer` of app/services/transaction_service.py), each on its own session of one database
-- under READ COMMITTED: a query sees what is committed, and `SELECT … FOR UPDATE` holds a row until
-- its session ends.
pub mod Copies
pub mod Settling
pub mod Keeping
pub mod Histories
pub mod Refinement
pub mod Progress
pub mod Interleavings
use nexobank_backend.Base.{
  ℕ, ◌≡◌, Option, none, some, List, [], ◌∷◌, ◌++◌, ◌==◌, leb, select_one, if◌then◌else◌,
}
use nexobank_backend.Models.{Account, Transaction}
use nexobank_backend.Session.{
  Env, Db, Result, ok, err, Action, pure, commit, with_session, ◌>>=◌, ◌>>◌,
}
use nexobank_backend.Repositories.Accounts.{has_id}
use nexobank_backend.Repositories.Transactions.{has_key}
use nexobank_backend.Transfers.{
  Transfer, Pair, replay, validate_inputs, check_owner, pair_of, check_rules, apply_transfer,
}

-- Where a request stands: before step 1, after it, in the lock query with the ids that are left and
-- the rows that are locked, and at its end.
pub data Worker : Type 0 where
  asked keyed : Transfer → Worker
  locking : Transfer → List ℕ → List Account → Worker
  answered : Result Transaction → Worker

-- The committed database, who holds which row of the accounts, and the requests.
pub record Bank : Type 0 where
  pub db : Db
  pub calls : ℕ
  pub lock : ℕ → Option ℕ
  pub workers : ℕ → Worker

abbrev pub put : {A : Type 0} → ℕ → A → (ℕ → A) → ℕ → A
put k a f j = if j == k then a else f j

-- what is left when the locks of a session are given back
abbrev pub released : ℕ → Option ℕ → Option ℕ
released i none = none
released i (some j) = if j == i then none else some j

-- `sorted([id1, id2])`
unfoldable pub ascending : ℕ → ℕ → List ℕ
ascending id1 id2 = if leb id1 id2 then id1 ∷ id2 ∷ [] else id2 ∷ id1 ∷ []

abbrev pub become : ℕ → Worker → Bank → Bank
become i w st = record st { workers = put i w st.workers }

-- the lock query comes to the row `k`: it skips a row that is not there, takes a free one, and waits
-- for one that is held
unfoldable pub take_row : ℕ → Transfer → ℕ → List ℕ → List Account → Bank → Option Bank
take_row i p k ks rows st = elim (select_one (has_id k) st.db.accounts) [
  | none ↦ some (become i (locking p ks rows) st)
  | some a ↦ elim (st.lock k) [
    | none ↦
        some
          (record (become i (locking p ks (rows ++ a ∷ [])) st) { lock = put k (some i) st.lock })
    | some _ ↦ none
  ]
]

module _ (env : Env) where
  -- Step 1
  unfoldable pub check_key : Transfer → Db → ℕ → Worker
  check_key p db calls = elim (select_one (has_key p.idempotency_key) db.transactions) [
    | none ↦ keyed p
    | some tx ↦ answered (with_session (replay p tx >>= λ pair. commit >> pure pair.0) db calls).0
  ]

  -- Steps 2 and 3
  unfoldable pub check_inputs : Transfer → Db → ℕ → Worker
  check_inputs p db calls = elim (with_session (validate_inputs p >> check_owner p) db calls).0 [
    | ok _ ↦ locking p (ascending p.from_account_id p.to_account_id) []
    | err e ↦ answered (err e)
  ]

  -- Steps 5 to 8 on the rows as they were read under the lock, with the commit of the route
  unfoldable pub settle : Transfer → List Account → Action Transaction
  settle p rows = do
    accounts ← pair_of p.from_account_id p.to_account_id rows
    check_rules p accounts.0 accounts.1
    pair ← apply_transfer env p accounts.0 accounts.1
    commit
    pure pair.0

  -- the end of a session: what it committed is the database, and its locks are free
  unfoldable pub finish : ℕ → Transfer → List Account → Bank → Bank
  finish i p rows st =
      let (r, db, calls) = with_session (settle p rows) st.db st.calls in
      record {
        db = db;
        calls = calls;
        lock = λ k. released i (st.lock k);
        workers = put i (answered r) st.workers;
      }

  abbrev pub advance : ℕ → Worker → Bank → Option Bank
  advance i (asked p) st = some (become i (check_key p st.db st.calls) st)
  advance i (keyed p) st = some (become i (check_inputs p st.db st.calls) st)
  advance i (locking p [] rows) st = some (finish i p rows st)
  advance i (locking p (k ∷ ks) rows) st = take_row i p k ks rows st
  advance i (answered r) st = none

  -- One step of the request `i`: `none` when it waits for a lock or is over.
  unfoldable pub step : ℕ → Bank → Option Bank
  step i st = advance i (st.workers i) st

  -- The states that any interleaving leads to.
  pub data Interleaved (start : Bank) : Bank → Type 0 where
    at_start : Interleaved start start
    after :
        (st next : Bank) (i : ℕ)
        → Interleaved start st
        → step i st ≡ some next
        → Interleaved start next

-- Requests for transfers that have all just arrived at a database.
abbrev pub arrival : Db → ℕ → (ℕ → Transfer) → Bank
arrival db calls requests = record {
  db = db;
  calls = calls;
  lock = λ _. none;
  workers = λ i. asked (requests i);
}
