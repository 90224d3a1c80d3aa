-- ===== src/Transfers/Refusals.antt =====
-- The errors of `execute_transfer` before it writes: which one is raised, in the order of the checks.
use nexobank_backend.Base.{
  ◌≡◌, ◌≢◌, ◌⊎◌, pos, ◌≤ℤ◌, true, false, some, none, arith, select_one, IsUnique, upper, eq_iff,
}
use nexobank_backend.Models.{Account, AccountStatus}
use nexobank_backend.Session.{
  Env, Session, Db, err, domain, DomainError, account_not_found, account_frozen, insufficient_funds,
  unauthorized_resource, unsupported_currency,
}
use nexobank_backend.Repositories.Accounts
use nexobank_backend.Repositories.Accounts.{has_id, same_id}
use nexobank_backend.Repositories.Transactions
use nexobank_backend.Repositories.Transactions.{has_key}
use nexobank_backend.Transfers.{
  Transfer, is_supported, validate_inputs, check_owner, check_rules, validate_account_owner,
  validate_account_active, execute_new, execute_transfer,
}
use nexobank_backend.Transfers.Guards.{InputsFit, validate_inputs-passes, check_owner-passes}
use nexobank_backend.Transfers.Locking.{lock-passes, lock-refused_right}

-- The two rows, and what was checked before them.
pub record Reaches (p : Transfer) (db : Db) (source target : Account) : Type 0 where
  pub inputs : InputsFit p
  pub source_found : select_one (has_id p.from_account_id) db.accounts ≡ some source
  pub owned : source.user_id ≡ p.requesting_user_id
  pub target_found : select_one (has_id p.to_account_id) db.accounts ≡ some target

-- Why a transfer is refused: each reason supposes that the ones above it do not hold.
pub data Refused (p : Transfer) (db : Db) (e : DomainError) : Type 0 where
  not_positive : p.amount ≤ℤ pos 0 → e ≡ insufficient_funds → Refused p db e
  unsupported :
      pos 1 ≤ℤ p.amount
      → is_supported (upper p.currency) ≡ false
      → e ≡ unsupported_currency
      → Refused p db e
  same_account :
      pos 1 ≤ℤ p.amount
      → is_supported (upper p.currency) ≡ true
      → p.from_account_id ≡ p.to_account_id
      → e ≡ account_not_found
      → Refused p db e
  no_source :
      InputsFit p
      → select_one (has_id p.from_account_id) db.accounts ≡ none
      → e ≡ account_not_found
      → Refused p db e
  not_owner :
      (source : Account)
      → InputsFit p
      → select_one (has_id p.from_account_id) db.accounts ≡ some source
      → source.user_id ≢ p.requesting_user_id
      → e ≡ unauthorized_resource
      → Refused p db e
  no_target :
      (source : Account)
      → InputsFit p
      → select_one (has_id p.from_account_id) db.accounts ≡ some source
      → source.user_id ≡ p.requesting_user_id
      → select_one (has_id p.to_account_id) db.accounts ≡ none
      → e ≡ account_not_found
      → Refused p db e
  source_inactive :
      (source target : Account)
      → Reaches p db source target
      → source.status ≢ AccountStatus.active
      → e ≡ account_frozen
      → Refused p db e
  target_inactive :
      (source target : Account)
      → Reaches p db source target
      → source.status ≡ AccountStatus.active
      → target.status ≢ AccountStatus.active
      → e ≡ account_frozen
      → Refused p db e
  other_currency :
      (source target : Account)
      → Reaches p db source target
      → source.status ≡ AccountStatus.active
      → target.status ≡ AccountStatus.active
      → (source.currency ≢ upper p.currency) ⊎ (target.currency ≢ upper p.currency)
      → e ≡ unsupported_currency
      → Refused p db e
  overdraft :
      (source target : Account)
      → Reaches p db source target
      → source.status ≡ AccountStatus.active
      → target.status ≡ AccountStatus.active
      → source.currency ≡ upper p.currency
      → target.currency ≡ upper p.currency
      → ¬ (p.amount ≤ℤ source.balance)
      → e ≡ insufficient_funds
      → Refused p db e

module _ (env : Env) (p : Transfer) (s : Session) (unique : IsUnique same_id s.db.accounts) where
  -- past the lock only the rules decide
  rules_decide :
      (source target : Account) (e : DomainError)
      → Reaches p s.db source target
      → check_rules p source target s ≡ (err (domain e), s)
      → execute_new env p s ≡ (err (domain e), s)
  unfolding execute_new
  rules_decide source target e r h = ground (
    arith,
    h,
    validate_inputs-passes p s r.inputs,
    check_owner-passes p s source r.source_found r.owned,
    lock-passes p.from_account_id p.to_account_id s r.inputs.distinct unique source target
        r.source_found r.target_found,
  )

  Refused-execute_new :
      (e : DomainError) → Refused p s.db e → execute_new env p s ≡ (err (domain e), s)
  unfolding execute_new validate_inputs check_owner check_rules validate_account_owner
      validate_account_active Accounts.get_by_id
  Refused-execute_new e (not_positive h k) = ground arith
  Refused-execute_new e (unsupported a h k) = ground arith
  Refused-execute_new e (same_account a b h k) = ground arith
  Refused-execute_new e (no_source i h k) = ground arith
  Refused-execute_new e (not_owner source i f h k) = ground arith
  Refused-execute_new e (no_target source i f o h k) =
      ground (arith, lock-refused_right p.from_account_id p.to_account_id s i.distinct unique h)
  Refused-execute_new e (source_inactive source target r h k) =
      rules_decide source target e r (ground arith)
  Refused-execute_new e (target_inactive source target r a h k) =
      rules_decide source target e r (ground arith)
  Refused-execute_new e (other_currency source target r a b h k) = rules_decide source target e r (
      ground (
        arith,
        eq_iff source.currency (upper p.currency),
        eq_iff target.currency (upper p.currency),
      ))
  Refused-execute_new e (overdraft source target r a b c d h k) = rules_decide source target e r (
      ground (
        arith,
        eq_iff source.currency (upper p.currency),
        eq_iff target.currency (upper p.currency),
      ))

  -- Where the ids of the accounts are unique and the key is new, each reason to refuse a transfer,
  -- in the order of the checks, raises its error and changes nothing: an amount that is not
  -- positive, an unsupported currency, equal accounts, a missing source, another owner, a missing
  -- target, an inactive account, another currency, and an amount above the balance.
  pub execute_transfer-Refused :
      (e : DomainError)
      → select_one (has_key p.idempotency_key) s.db.transactions ≡ none
      → Refused p s.db e
      → execute_transfer env p s ≡ (err (domain e), s)
  unfolding execute_transfer Transactions.get_by_idempotency_key
  execute_transfer-Refused e new r = ground (arith, new, Refused-execute_new e r)
