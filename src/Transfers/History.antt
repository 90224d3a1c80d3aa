-- ===== src/Transfers/History.antt =====
-- `get_account_transactions`, page after page.
use nexobank_backend.Base.{
  ℕ, ◌≤◌, ◌<◌, ◌≡◌, String, Option, none, some, arith, select_one, IsUnique, length,
}
use nexobank_backend.Models.{Account}
use nexobank_backend.Session.{Env, Session, ok}
use nexobank_backend.Repositories.Accounts
use nexobank_backend.Repositories.Accounts.{has_id}
use nexobank_backend.Repositories.Transactions.{same_id}
use nexobank_backend.Repositories.Transactions.Paging.{get_by_account_id_paginated}
use nexobank_backend.Repositories.Transactions.Paging.Ordering.{Chain}
use nexobank_backend.Repositories.Transactions.Paging.Reading.{
  statement_of, read_pages, read_all_pages, Chain-statement_of,
}
use nexobank_backend.Transfers.{get_account_transactions}

module _ (env : Env) (account_id user_id limit : ℕ) (s : Session) (account : Account)
    (found : select_one (has_id account_id) s.db.accounts ≡ some account)
    (owned : account.user_id ≡ user_id) where
  -- the owner's pages are the repository's
  owner_page :
      (cursor : Option String)
      → get_account_transactions env account_id user_id limit cursor s
        ≡ get_by_account_id_paginated env account_id limit cursor s
  unfolding get_account_transactions Accounts.get_by_id
  owner_page cursor = ground (arith, found, owned)

  -- The owner of an account who asks for page after page, each with the cursor that the last page
  -- gave, in pages of at least one row and for more pages than the account has rows, reads every
  -- transaction of the account exactly once, newest first, and changes nothing; where the ids of the
  -- transactions are unique, and where base64 and the text of a UUID can be read back.
  pub read_pages_complete :
      IsUnique same_id s.db.transactions
      → ((text : String) → env.b64decode (env.b64encode text) ≡ some text)
      → ((k : ℕ) → env.parse_uuid (env.uuid_text k) ≡ some k)
      → 1 ≤ limit
      → (fuel : ℕ) → length (statement_of account_id s.db.transactions) < fuel
      → (read_pages (get_account_transactions env account_id user_id limit) fuel none s
          ≡ (ok (statement_of account_id s.db.transactions), s))
        × Chain (statement_of account_id s.db.transactions)
  read_pages_complete unique decodes parses positive fuel enough = (
    read_all_pages env account_id limit s unique decodes parses
        (get_account_transactions env account_id user_id limit) owner_page positive fuel enough,
    Chain-statement_of env account_id s.db.transactions unique decodes parses,
  )
