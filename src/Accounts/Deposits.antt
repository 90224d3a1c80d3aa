-- ===== src/Accounts/Deposits.antt =====
-- `deposit_funds`: what it writes, and that it keeps the ledger.
use mathlib.Core.Path.{subst, sym}
use nexobank_backend.Models.{Host}
use nexobank_backend.Base.{
  ℕ, ◌+◌, ◌≡◌, ℤ, pos, negsuc, ◌+ℤ◌, ◌≤ℤ◌, int_laws, String, Option, none, some, true, [], ◌∷◌,
  ◌++◌, arith, ==_iff, select_one, select_one_holds, Option-cases, inl, inr,
}
use nexobank_backend.Models.{
  Account, Transaction, TransactionType, TransactionStatus, AuditLog, Json,
}
use nexobank_backend.Money.{Decimal, to_cents, add_to_cents, fits_numeric}
use nexobank_backend.Money.Rounding.{IsShort, add_to_cents-add, to_cents_nonneg}
use nexobank_backend.Session.{Env, Session, Db, ok}
use nexobank_backend.Repositories.Accounts
use nexobank_backend.Repositories.Accounts.{has_id}
use nexobank_backend.Repositories.Transactions
use nexobank_backend.Repositories.Transactions.{refusal}
use nexobank_backend.Repositories.AuditLogs
use nexobank_backend.Ledger.{ledger, entry, IsValid}
use nexobank_backend.Ledger.Balances.{
  set_balance, select_one-set_balance, IsUnique-set_balance, ledger-append, ledger-one,
}
use nexobank_backend.Ledger.Appending.{append_new-ids, append_new-keys}
use nexobank_backend.Accounts.{or_default, credit, deposit_funds}

module _ (env : Env) (account_id user_id : ℕ) (amount : Decimal) (description : Option String)
    (ip : Option Host) where
  abbrev pub deposit_row : ℕ → Transaction
  deposit_row n = record {
    id = env.uuid4 n;
    created_at = env.now (n + 1);
    account_id = account_id;
    counterparty_account_id = none;
    type = TransactionType.deposit;
    amount = to_cents amount;
    status = TransactionStatus.completed;
    idempotency_key = none;
    reference_transaction_id = none;
    description = or_default description "External deposit";
  }

  abbrev audit_row : ℕ → AuditLog
  audit_row n = record {
    id = env.uuid4 (n + 1 + 1);
    created_at = env.now (n + 1 + 1 + 1);
    user_id = some user_id;
    action = "DEPOSIT_COMPLETED";
    entity_type = some "transaction";
    entity_id = some (env.uuid4 n);
    ip_address = ip;
    metadata =
        ("amount", Json.decimal amount.coefficient amount.exponent)
        ∷ ("account_id", Json.uuid account_id)
        ∷ [];
  }

  abbrev deposited : Account → Session → Session
  deposited a s = record s {
    db = record s.db {
      accounts = set_balance a.id (add_to_cents a.balance amount) s.db.accounts;
      transactions = s.db.transactions ++ deposit_row s.calls ∷ [];
      audit_logs = s.db.audit_logs ++ audit_row s.calls ∷ [];
    };
    calls = s.calls + 1 + 1 + 1 + 1;
  }

  record Accepts (a : Account) (s : Session) : Type 0 where
    found : select_one (has_id account_id) s.db.accounts ≡ some a
    owned : a.user_id ≡ user_id
    balance_fits : fits_numeric (add_to_cents a.balance amount) ≡ true
    row_fits : refusal s.db.transactions (deposit_row s.calls) ≡ none

  deposit_funds-ok :
      (s : Session) {tx : Transaction} {t : Session}
      → deposit_funds env account_id user_id amount description ip s ≡ (ok tx, t)
      → (a : Account) × Accepts a s × (tx ≡ deposit_row s.calls) × (t ≡ deposited a s)
  unfolding deposit_funds credit Accounts.get_by_id Accounts.update_balance Transactions.create
      Transactions.flush_row AuditLogs.log
  deposit_funds-ok s h = elim (Option-cases (select_one (has_id account_id) s.db.accounts)) [
    | inl missing ↦ absurd (ground arith)
    | inr (a, found) ↦ (
      a,
      record {
        found = found;
        owned = ground arith;
        balance_fits = ground arith;
        row_fits = ground arith;
      },
      ground arith,
      ground arith,
    )
  ]

  module _ (a : Account) (s : Session) (acc : Accepts a s) (v : IsValid s.db)
      (positive : pos 0 ≤ℤ amount.coefficient) (short : IsShort amount) where
    abbrev after : Db
    after = (deposited a s).db

    a_id : a.id ≡ account_id
    a_id = (==_iff _ _).0 (select_one_holds (has_id account_id) s.db.accounts a acc.found)

    -- the stored balance is the old one and the amount of the row
    stored : add_to_cents a.balance amount ≡ a.balance +ℤ to_cents amount
    stored = stored_of a.balance (v.nonneg account_id a acc.found) acc.balance_fits
      where
        stored_of :
            (b : ℤ)
            → pos 0 ≤ℤ b
            → fits_numeric (add_to_cents b amount) ≡ true
            → add_to_cents b amount ≡ b +ℤ to_cents amount
        stored_of (pos n) h = add_to_cents-add n amount positive short
        stored_of (negsuc n) h = absurd (omega arith)

    after_ledger :
        (k : ℕ)
        → ledger k after.transactions ≡ ledger k s.db.transactions +ℤ entry k (deposit_row s.calls)
    after_ledger k = rw (
      ledger-append k s.db.transactions (deposit_row s.calls ∷ []),
      ledger-one k (deposit_row s.calls),
    )

    reconciled_after :
        (k : ℕ) (b : Account)
        → select_one (has_id k) after.accounts ≡ some b
        → (pos 0 ≤ℤ b.balance) × (b.balance ≡ ledger k after.transactions)
    reconciled_after k b h = elim (Option-cases (select_one (has_id k) s.db.accounts)) [
      | inl missing ↦ absurd (
          ground
            (arith, select_one-set_balance k a.id (add_to_cents a.balance amount) s.db.accounts))
      | inr (old, e) ↦ grind (
        int_laws,
        select_one-set_balance k a.id (add_to_cents a.balance amount) s.db.accounts,
        after_ledger k,
        select_one_holds (has_id k) s.db.accounts old e,
        v.nonneg k old e,
        v.reconciled k old e,
        acc.found,
        a_id,
        stored,
        to_cents_nonneg amount positive,
      )
    ]

    unowned_after :
        (k : ℕ) → select_one (has_id k) after.accounts ≡ none → ledger k after.transactions ≡ pos 0
    unowned_after k h = elim (Option-cases (select_one (has_id k) s.db.accounts)) [
      | inl e ↦ grind (int_laws, after_ledger k, v.unowned k e, acc.found)
      | inr (old, e) ↦ absurd (
          ground
            (arith, e, select_one-set_balance k a.id (add_to_cents a.balance amount) s.db.accounts))
    ]

    deposited-IsValid : IsValid after
    deposited-IsValid = record {
      account_ids = IsUnique-set_balance a.id (add_to_cents a.balance amount) _ v.account_ids;
      transaction_ids =
          append_new-ids s.db.transactions (deposit_row s.calls) acc.row_fits v.transaction_ids;
      keys = append_new-keys s.db.transactions (deposit_row s.calls) acc.row_fits v.keys;
      nonneg = λ k b h. (reconciled_after k b h).0;
      reconciled = λ k b h. (reconciled_after k b h).1;
      unowned = unowned_after;
    }

  module _ (s : Session) (v : IsValid s.db) (positive : pos 0 ≤ℤ amount.coefficient)
      (short : IsShort amount) {tx : Transaction} {t : Session}
      (returned : deposit_funds env account_id user_id amount description ip s ≡ (ok tx, t)) where
    -- From a database that satisfies the invariant of the ledger, a deposit of a non-negative
    -- amount of at most ten decimal places that returns leaves one that does, also when the amount
    -- has more than two and is rounded by the columns.
    pub deposit_funds-IsValid : IsValid t.db
    deposit_funds-IsValid =
        let (a, acc, _, same) = deposit_funds-ok s returned in
        subst (λ u. IsValid u.db) (sym same) (deposited-IsValid a s acc v positive short)
