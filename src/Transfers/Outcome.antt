-- ===== src/Transfers/Outcome.antt =====
-- What steps 6 to 8 leave behind, written out: the rows of the transfer, and the session at the end.
use nexobank_backend.Base.{
  ℕ, ◌+◌, ◌≡◌, ℤ, ◌+ℤ◌, ◌-ℤ◌, true, false, none, some, [], ◌∷◌, ◌++◌, arith, upper,
}
use nexobank_backend.Models.{
  Account, Transaction, TransactionType, TransactionStatus, AuditLog, Json,
}
use nexobank_backend.Money.{fits_numeric}
use nexobank_backend.Session.{Env, Session, Error, ok, err, data_error}
use nexobank_backend.Repositories.Accounts
use nexobank_backend.Repositories.Transactions
use nexobank_backend.Repositories.Transactions.{refusal}
use nexobank_backend.Repositories.AuditLogs
use nexobank_backend.Ledger.Balances.{set_balance}
use nexobank_backend.Transfers.{Transfer, Pair, companion, apply_transfer}

-- the new balances
abbrev pub debited : Transfer → Account → ℤ
debited p source = source.balance -ℤ p.amount

abbrev pub credited : Transfer → Account → ℤ
credited p target = target.balance +ℤ p.amount

abbrev with_balance : ℕ → ℤ → Session → Session
with_balance k balance s = record s {
  db = record s.db { accounts = set_balance k balance s.db.accounts };
}

update_balance-passes :
    (k : ℕ) (balance : ℤ) (s : Session)
    → fits_numeric balance ≡ true
    → Accounts.update_balance k balance s ≡ (ok tt, with_balance k balance s)
unfolding Accounts.update_balance
update_balance-passes k balance s h = rw h

update_balance-refuses :
    (k : ℕ) (balance : ℤ) (s : Session)
    → fits_numeric balance ≡ false
    → (Accounts.update_balance k balance s) ≡ (err data_error, s)
unfolding Accounts.update_balance
update_balance-refuses k balance s h = ground (arith, h)

flush_row-refuses :
    (tx : Transaction) (s : Session) {e : Error}
    → refusal s.db.transactions tx ≡ some e
    → Transactions.flush_row tx s ≡ (err e, s)
unfolding Transactions.flush_row
flush_row-refuses tx s h = ground (arith, h)

flush_row-passes :
    (tx : Transaction) (s : Session)
    → refusal s.db.transactions tx ≡ none
    → Transactions.flush_row tx s
      ≡ (ok tx, record s { db = record s.db { transactions = s.db.transactions ++ tx ∷ [] } })
unfolding Transactions.flush_row
flush_row-passes tx s h = rw (h, Transactions.flush_row)

module _ (env : Env) (p : Transfer) where
  -- the debit and the credit, when the generators were called `n` times before
  abbrev pub out_row : ℕ → Transaction
  out_row n = record {
    id = env.uuid4 n;
    created_at = env.now (n + 1);
    account_id = p.from_account_id;
    counterparty_account_id = some p.to_account_id;
    type = TransactionType.transfer_out;
    amount = p.amount;
    status = TransactionStatus.completed;
    idempotency_key = some p.idempotency_key;
    reference_transaction_id = none;
    description = p.description;
  }

  abbrev pub in_row : ℕ → Transaction
  in_row n = record {
    id = env.uuid4 (n + 1 + 1);
    created_at = env.now (n + 1 + 1 + 1);
    account_id = p.to_account_id;
    counterparty_account_id = some p.from_account_id;
    type = TransactionType.transfer_in;
    amount = p.amount;
    status = TransactionStatus.completed;
    idempotency_key = some (companion p.idempotency_key);
    reference_transaction_id = none;
    description = p.description;
  }

  abbrev pub audit_row : ℕ → AuditLog
  audit_row n = record {
    id = env.uuid4 (n + 1 + 1 + 1 + 1);
    created_at = env.now (n + 1 + 1 + 1 + 1 + 1);
    user_id = some p.requesting_user_id;
    action = "TRANSFER_COMPLETED";
    entity_type = some "transaction";
    entity_id = some (env.uuid4 n);
    ip_address = p.ip_address;
    metadata =
        ("amount", Json.cents p.amount)
        ∷ ("currency", Json.text (upper p.currency))
        ∷ ("from_account", Json.uuid p.from_account_id)
        ∷ ("to_account", Json.uuid p.to_account_id)
        ∷ ("tx_out_id", Json.uuid (env.uuid4 n))
        ∷ ("tx_in_id", Json.uuid (env.uuid4 (n + 1 + 1)))
        ∷ [];
  }

  module _ (source target : Account) (s : Session) where
    -- The database takes all the rows: no balance is out of range, no id and no key is taken, and
    -- every text fits its column.
    pub record HasRoom : Type 0 where
      pub debit_fits : fits_numeric (debited p source) ≡ true
      pub credit_fits : fits_numeric (credited p target) ≡ true
      pub out_fits : refusal s.db.transactions (out_row s.calls) ≡ none
      pub in_fits : refusal (s.db.transactions ++ out_row s.calls ∷ []) (in_row s.calls) ≡ none

    abbrev pub applied : Session
    applied = record s {
      db = record s.db {
        accounts =
            set_balance target.id (credited p target)
              (set_balance source.id (debited p source) s.db.accounts);
        transactions = (s.db.transactions ++ out_row s.calls ∷ []) ++ in_row s.calls ∷ [];
        audit_logs = s.db.audit_logs ++ audit_row s.calls ∷ [];
      };
      calls = s.calls + 1 + 1 + 1 + 1 + 1 + 1;
    }

    after_stores : Session
    after_stores =
        record (with_balance target.id (credited p target)
          (with_balance source.id (debited p source) s)) { calls = s.calls + 1 + 1 }

    after_out : Session
    after_out = record s {
      db = record s.db {
        accounts =
            set_balance target.id (credited p target)
              (set_balance source.id (debited p source) s.db.accounts);
        transactions = s.db.transactions ++ out_row s.calls ∷ [];
      };
      calls = s.calls + 1 + 1 + 1 + 1;
    }

    pub apply_transfer-passes :
        HasRoom
        → apply_transfer env p source target s ≡ (ok (out_row s.calls, in_row s.calls), applied)
    unfolding apply_transfer Transactions.create AuditLogs.log after_stores after_out
    apply_transfer-passes r = ground (
      arith,
      update_balance-passes source.id (debited p source) s r.debit_fits,
      update_balance-passes target.id (credited p target)
          (with_balance source.id (debited p source) s) r.credit_fits,
      flush_row-passes (out_row s.calls) after_stores r.out_fits,
      flush_row-passes (in_row s.calls) after_out r.in_fits,
    )

    -- A balance that is refused leaves the committed state alone.
    pub apply_transfer-refused_debit :
        fits_numeric (debited p source) ≡ false
        → (apply_transfer env p source target s).1.committed ≡ s.committed
    unfolding apply_transfer
    apply_transfer-refused_debit d =
        ground (arith, update_balance-refuses source.id (debited p source) s d)

    pub apply_transfer-refused_credit :
        fits_numeric (debited p source) ≡ true
        → fits_numeric (credited p target) ≡ false
        → (apply_transfer env p source target s).1.committed ≡ s.committed
    unfolding apply_transfer
    apply_transfer-refused_credit d c = ground (
      arith,
      update_balance-passes source.id (debited p source) s d,
      update_balance-refuses target.id (credited p target)
          (with_balance source.id (debited p source) s) c,
    )

    -- A row that is refused leaves the committed state alone.
    pub apply_transfer-refused_out :
        {e : Error}
        → fits_numeric (debited p source) ≡ true
        → fits_numeric (credited p target) ≡ true
        → refusal s.db.transactions (out_row s.calls) ≡ some e
        → (apply_transfer env p source target s).1.committed ≡ s.committed
    unfolding apply_transfer Transactions.create after_stores
    apply_transfer-refused_out d c o = ground (
      arith,
      update_balance-passes source.id (debited p source) s d,
      update_balance-passes target.id (credited p target)
          (with_balance source.id (debited p source) s) c,
      flush_row-refuses (out_row s.calls) after_stores o,
    )

    pub apply_transfer-refused_in :
        {e : Error}
        → fits_numeric (debited p source) ≡ true
        → fits_numeric (credited p target) ≡ true
        → refusal s.db.transactions (out_row s.calls) ≡ none
        → refusal (s.db.transactions ++ out_row s.calls ∷ []) (in_row s.calls) ≡ some e
        → (apply_transfer env p source target s).1.committed ≡ s.committed
    unfolding apply_transfer Transactions.create AuditLogs.log after_stores after_out
    apply_transfer-refused_in d c o i = ground (
      arith,
      update_balance-passes source.id (debited p source) s d,
      update_balance-passes target.id (credited p target)
          (with_balance source.id (debited p source) s) c,
      flush_row-passes (out_row s.calls) after_stores o,
      flush_row-refuses (in_row s.calls) after_out i,
    )

    pub apply_transfer-HasRoom :
        {pair : Pair} {t : Session} → apply_transfer env p source target s ≡ (ok pair, t) → HasRoom
    unfolding apply_transfer Accounts.update_balance Transactions.create Transactions.flush_row
        AuditLogs.log
    apply_transfer-HasRoom h = ground arith
