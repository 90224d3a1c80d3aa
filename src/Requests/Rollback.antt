-- ===== src/Requests/Rollback.antt =====
-- The services under the write routes do not commit, so that a request that raises leaves the
-- database as it was.
use mathlib.Core.Path.{ap}
use nexobank_backend.Models.{Host}
use nexobank_backend.Accounts.Deposits.{deposit_row}
use nexobank_backend.Repositories.Accounts.{has_id}
use nexobank_backend.Base.{select_one}
use nexobank_backend.Base.{
  upper, ℕ, ◌+◌, zero, suc, ◌≡◌, refl, String, Option, arith, Option-cases, Bool-cases, inl, inr,
}
use nexobank_backend.Models.{Account, AccountType}
use nexobank_backend.Money.{Decimal}
use nexobank_backend.Session.{Env, Session, Result, ok, err}
use nexobank_backend.Session.Quiet.{Quiet}
use nexobank_backend.Repositories.Accounts as Rows
use nexobank_backend.Repositories.Accounts.{generate_account_number}
use nexobank_backend.Accounts
use nexobank_backend.Repositories.Transactions
use nexobank_backend.Repositories.Transactions.{refusal}
use nexobank_backend.Money.{fits_numeric}
use nexobank_backend.Transfers.Outcome.{
  debited, credited, out_row, in_row, apply_transfer-passes, apply_transfer-refused_in,
  apply_transfer-refused_out, apply_transfer-refused_credit, apply_transfer-refused_debit,
}
use nexobank_backend.Base.{[], ◌∷◌, ◌++◌}
use nexobank_backend.Repositories.AuditLogs
use nexobank_backend.Transfers.{
  Transfer, replay, validate_inputs, check_owner, lock_accounts_for_update, check_rules,
  apply_transfer, execute_new, execute_transfer, validate_account_active, validate_account_owner,
}

module _ (env : Env) where
  pub apply_transfer-Quiet : (p : Transfer) (a b : Account) → Quiet (apply_transfer env p a b)
  unfolding apply_transfer Rows.update_balance Transactions.create Transactions.flush_row
      AuditLogs.log
  apply_transfer-Quiet p a b s = elim (Bool-cases (fits_numeric (debited p a))) [
    | inr e ↦ apply_transfer-refused_debit env p a b s e
    | inl e ↦ elim (Bool-cases (fits_numeric (credited p b))) [
      | inr k ↦ apply_transfer-refused_credit env p a b s e k
      | inl k ↦ elim (Option-cases (refusal s.db.transactions (out_row env p s.calls))) [
        | inr (x, h) ↦ apply_transfer-refused_out env p a b s {e = x} e k h
        | inl h ↦
            elim (Option-cases
              (refusal (s.db.transactions ++ out_row env p s.calls ∷ []) (in_row env p s.calls))) [
                | inr (x, i) ↦ apply_transfer-refused_in env p a b s {e = x} e k h i
                | inl i ↦
                    ap (λ r. r.1.committed)
                      (apply_transfer-passes env p a b s
                        (record { debit_fits = e; credit_fits = k; out_fits = h; in_fits = i }))
              ]
      ]
    ]
  ]

  lock_looks : (i j : ℕ) (s : Session) → (lock_accounts_for_update i j s).1 ≡ s
  unfolding lock_accounts_for_update
  lock_looks i j s = ground (arith)

  after_lock :
      (p : Transfer) (s : Session) (r : Result (Account × Account) × Session)
      → lock_accounts_for_update p.from_account_id p.to_account_id s ≡ r
      → (execute_new env p s).1.committed ≡ s.committed
  unfolding execute_new validate_inputs check_owner check_rules validate_account_active
      validate_account_owner Rows.get_by_id
  after_lock p s (ok (a, b), u) e =
      ground
        (arith, e, lock_looks p.from_account_id p.to_account_id s, apply_transfer-Quiet p a b u)
  after_lock p s (err x, u) e = ground (arith, e, lock_looks p.from_account_id p.to_account_id s)

  execute_new-Quiet : (p : Transfer) → Quiet (execute_new env p)
  execute_new-Quiet p s =
      after_lock p s (lock_accounts_for_update p.from_account_id p.to_account_id s) refl

  pub execute_transfer-Quiet : (p : Transfer) → Quiet (execute_transfer env p)
  unfolding execute_transfer replay Transactions.get_by_idempotency_key
  execute_transfer-Quiet p s = ground (arith, execute_new-Quiet p s)

  pub deposit_funds-Quiet :
      (account_id user_id : ℕ) (amount : Decimal) (description : Option String) (ip : Option Host)
      → Quiet (Accounts.deposit_funds env account_id user_id amount description ip)
  unfolding Accounts.deposit_funds Accounts.credit Rows.get_by_id Rows.update_balance
      Transactions.create Transactions.flush_row AuditLogs.log
  deposit_funds-Quiet account_id user_id amount description ip s =
      elim (Option-cases (select_one (has_id account_id) s.db.accounts)) [
        | inl e ↦ ground (arith, e)
        | inr (a, e) ↦
            elim (Option-cases (
              refusal s.db.transactions
                (deposit_row env account_id user_id amount description ip s.calls))) [
                  | inl k ↦ ground (arith, e, k)
                  | inr (x, k) ↦ ground (arith, e, k)
                ]
      ]

  generate-Quiet :
      (prefix : String) (rounds : ℕ) → Quiet (generate_account_number env rounds prefix)
  unfolding generate_account_number
  generate-Quiet prefix zero s = refl
  generate-Quiet prefix (suc rounds) s =
      ground (arith, generate-Quiet prefix rounds (record s { calls = s.calls + 1 }))

  after_number :
      (user_id : ℕ) (currency : String) (type : AccountType) (s : Session)
      (r : Result String × Session)
      → generate_account_number env 10 (upper (upper currency)) s ≡ r
      → (Accounts.create_account env user_id currency type s).1.committed ≡ s.committed
  unfolding Accounts.create_account Rows.create Rows.flush_row AuditLogs.log
  after_number user_id currency type s (ok number, u) e =
      ground (arith, e, generate-Quiet (upper (upper currency)) 10 s)
  after_number user_id currency type s (err x, u) e =
      ground (arith, e, generate-Quiet (upper (upper currency)) 10 s)

  pub create_account-Quiet :
      (user_id : ℕ) (currency : String) (type : AccountType)
      → Quiet (Accounts.create_account env user_id currency type)
  create_account-Quiet user_id currency type s =
      after_number user_id currency type s
        (generate_account_number env 10 (upper (upper currency)) s) refl
