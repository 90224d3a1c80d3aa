-- ===== src/Transfers/Safety.antt =====
-- What every call of `execute_transfer` that returns has kept and done.
use mathlib.Core.Path.{subst, sym, ap, ◌∙◌}
use nexobank_backend.Base.{
  ◌≡◌, ◌≢◌, ◌⊎◌, inl, inr, ℕ, ◌+ℤ◌, ◌-ℤ◌, String, none, some, arith, select_one, Option-cases,
}
use nexobank_backend.Models.{Account, Transaction}
use nexobank_backend.Session.{Env, Session, ok}
use nexobank_backend.Repositories.Accounts.{has_id}
use nexobank_backend.Repositories.Transactions
use nexobank_backend.Repositories.Transactions.{has_key}
use nexobank_backend.Ledger.{total, IsValid}
use nexobank_backend.Transfers.{Transfer, Pair, replay, execute_transfer}
use nexobank_backend.Transfers.Outcome.{applied}
use nexobank_backend.Transfers.Success.{Accepts, execute_transfer-ok}
use nexobank_backend.Transfers.Accounting.{
  applied-IsValid, total_after, source_after, target_after, others_after,
}

module _ (env : Env) (p : Transfer) (s : Session) (v : IsValid s.db) {pair : Pair} {t : Session}
    (returned : execute_transfer env p s ≡ (ok pair, t)) where
  -- a known key changes nothing
  replayed :
      (tx : Transaction)
      → select_one (has_key p.idempotency_key) s.db.transactions ≡ some tx
      → t ≡ s
  unfolding execute_transfer replay Transactions.get_by_idempotency_key
  replayed tx e = ground (arith)

  -- the two ways to return
  returned_cases :
      (t ≡ s)
      ⊎ ((source : Account) × (target : Account) × Accepts env p source target s
          × (t ≡ applied env p source target s))
  returned_cases = elim (Option-cases (select_one (has_key p.idempotency_key) s.db.transactions)) [
    | inr (tx, e) ↦ inl (replayed tx e)
    | inl e ↦
        let (source, target, a, _, same) = execute_transfer-ok env p s v.account_ids e returned in
        inr (source, target, a, same)
  ]

  -- From a database that satisfies the invariant of the ledger, a transfer that returns, whether
  -- applied or replayed, leaves one that does: unique ids and keys, no negative balance, and every
  -- balance equal to the sum of its ledger entries.
  pub execute_transfer-IsValid : IsValid t.db
  execute_transfer-IsValid = elim returned_cases [
    | inl same ↦ subst (λ u. IsValid u.db) (sym same) v
    | inr (source, target, a, same) ↦
        subst (λ u. IsValid u.db) (sym same)
          (applied-IsValid env p source target s a v.account_ids v)
  ]

  -- From a database that satisfies the invariant, a transfer that returns leaves the total of the
  -- balances in every currency as it was.
  pub total-execute_transfer : (c : String) → total c t.db.accounts ≡ total c s.db.accounts
  total-execute_transfer c = elim returned_cases [
    | inl same ↦ cc
    | inr (source, target, a, same) ↦ rw same (total_after env p source target s a v.account_ids c)
  ]

  -- From a database that satisfies the invariant and with a new key, a transfer that returns has
  -- debited the source account and credited the target account by its amount, and left every other
  -- account as it was.
  pub execute_transfer_moves_funds :
      select_one (has_key p.idempotency_key) s.db.transactions ≡ none
      → (source : Account) × (target : Account) × (select_one
            (has_id p.from_account_id)
            s.db.accounts
          ≡ some source)
        × (select_one (has_id p.to_account_id) s.db.accounts ≡ some target)
        × (select_one (has_id p.from_account_id) t.db.accounts
            ≡ some (record source { balance = source.balance -ℤ p.amount }))
        × (select_one (has_id p.to_account_id) t.db.accounts
            ≡ some (record target { balance = target.balance +ℤ p.amount }))
        × ((k : ℕ)
            → k ≢ p.from_account_id
            → k ≢ p.to_account_id
            → select_one (has_id k) t.db.accounts ≡ select_one (has_id k) s.db.accounts)
  execute_transfer_moves_funds new =
      let (source, target, a, _, same) = execute_transfer-ok env p s v.account_ids new returned in
      (
        source,
        target,
        a.source_found,
        a.target_found,
        ap (λ u. select_one (has_id p.from_account_id) u.db.accounts) same
            ∙ source_after env p source target s a v.account_ids,
        ap (λ u. select_one (has_id p.to_account_id) u.db.accounts) same
            ∙ target_after env p source target s a v.account_ids,
        λ k nf nt. rw same (others_after env p source target s a v.account_ids k nf nt),
      )
