-- ===== src/Transfers/Success.antt =====
-- `execute_transfer` with a new key returns exactly when all its conditions hold, and then the
-- session is the one that `Outcome` writes out.
use nexobank_backend.Base.{◌≡◌, none, some, arith, select_one, IsUnique}
use nexobank_backend.Models.{Account}
use nexobank_backend.Session.{Env, Session, Action, ok, ◌>>=◌, ◌>>◌}
use nexobank_backend.Session.Rules.{look-ok}
use nexobank_backend.Repositories.Accounts.{has_id, same_id}
use nexobank_backend.Repositories.Transactions
use nexobank_backend.Repositories.Transactions.{has_key}
use nexobank_backend.Transfers.{
  Transfer, Pair, validate_inputs, check_owner, lock_accounts_for_update, check_rules,
  apply_transfer, execute_new, execute_transfer,
}
use nexobank_backend.Transfers.Guards.{
  InputsFit, OwnedBy, RulesFit, validate_inputs-ok, check_owner-ok, check_rules-ok,
  validate_inputs-passes, check_owner-passes, check_rules-passes,
}
use nexobank_backend.Transfers.Locking.{lock-ok, lock-passes}
use nexobank_backend.Transfers.Outcome.{
  HasRoom, out_row, in_row, applied, apply_transfer-passes, apply_transfer-HasRoom,
}

-- Everything that a new transfer needs.
pub record Accepts (env : Env) (p : Transfer) (source target : Account) (s : Session) : Type 0 where
  pub key_is_new : select_one (has_key p.idempotency_key) s.db.transactions ≡ none
  pub inputs : InputsFit p
  pub source_found : select_one (has_id p.from_account_id) s.db.accounts ≡ some source
  pub target_found : select_one (has_id p.to_account_id) s.db.accounts ≡ some target
  pub owned : source.user_id ≡ p.requesting_user_id
  pub rules : RulesFit p source target
  pub room : HasRoom env p source target s

module _ (env : Env) (p : Transfer) (s : Session) (unique : IsUnique same_id s.db.accounts) where
  pub execute_transfer-passes :
      (source target : Account)
      → Accepts env p source target s
      → execute_transfer env p s
        ≡ (ok (out_row env p s.calls, in_row env p s.calls), applied env p source target s)
  unfolding execute_transfer execute_new Transactions.get_by_idempotency_key
  execute_transfer-passes source target a = ground (
    arith,
    a.key_is_new,
    validate_inputs-passes p s a.inputs,
    check_owner-passes p s source a.source_found a.owned,
    lock-passes p.from_account_id p.to_account_id s a.inputs.distinct unique source target
        a.source_found a.target_found,
    check_rules-passes p source target s a.rules,
    apply_transfer-passes env p source target s a.room,
  )

  abbrev Found : Account × Account → Type 0
  Found rows =
      (select_one (has_id p.from_account_id) s.db.accounts ≡ some rows.0)
      × (select_one (has_id p.to_account_id) s.db.accounts ≡ some rows.1)

  locked_rows :
      {rows : Account × Account} {t : Session}
      → lock_accounts_for_update p.from_account_id p.to_account_id s ≡ (ok rows, t)
      → InputsFit p
      → Found rows × (t ≡ s)
  locked_rows e inputs =
      let (one, two, same) = lock-ok p.from_account_id p.to_account_id s inputs.distinct unique e in
      ((one, two), same)

  -- what follows the lock, the ownership check and the input checks
  abbrev after_lock : Account × Account → Action Pair
  after_lock rows = do check_rules p rows.0 rows.1; apply_transfer env p rows.0 rows.1

  abbrev after_owner : Unit {0} → Action Pair
  after_owner _ = lock_accounts_for_update p.from_account_id p.to_account_id >>= after_lock

  abbrev after_inputs : Unit {0} → Action Pair
  after_inputs _ = check_owner p >>= after_owner

  execute_new-ok :
      {pair : Pair} {t : Session}
      → select_one (has_key p.idempotency_key) s.db.transactions ≡ none
      → execute_new env p s ≡ (ok pair, t)
      → (source : Account) × (target : Account) × Accepts env p source target s
  unfolding execute_new
  execute_new-ok new h =
      let (_, inputs, h1) =
        look-ok (λ _. InputsFit p) (validate_inputs p) after_inputs s
          (λ _ _ e. validate_inputs-ok p s e) h in
      let (_, owner, h2) =
        look-ok (λ _. OwnedBy p s) (check_owner p) after_owner s (λ _ _ e. check_owner-ok p s e)
          h1 in
      let (rows, found, h3) =
        look-ok (λ rows. Found rows) (lock_accounts_for_update p.from_account_id p.to_account_id)
          after_lock s (λ _ _ e. locked_rows e inputs) h2 in
      let (_, rules, h4) =
        look-ok (λ _. RulesFit p rows.0 rows.1) (check_rules p rows.0 rows.1)
          (λ _. apply_transfer env p rows.0 rows.1) s (λ _ _ e. check_rules-ok p rows.0 rows.1 s e)
          h3 in
      (
        rows.0,
        rows.1,
        record {
          key_is_new = new;
          inputs = inputs;
          source_found = found.0;
          target_found = found.1;
          owned = ground (arith, owner.1, owner.2, found.0);
          rules = rules;
          room = apply_transfer-HasRoom env p rows.0 rows.1 s h4;
        },
      )

  -- Where the ids of the accounts are unique and the key is new, a transfer that returns has met
  -- all its conditions (`Accepts`); the rows that it returns and the session that it leaves are
  -- those of `Outcome`.
  pub execute_transfer-ok :
      {pair : Pair} {t : Session}
      → select_one (has_key p.idempotency_key) s.db.transactions ≡ none
      → execute_transfer env p s ≡ (ok pair, t)
      → (source : Account) × (target : Account) × Accepts env p source target s
        × (pair ≡ (out_row env p s.calls, in_row env p s.calls))
        × (t ≡ applied env p source target s)
  unfolding execute_transfer Transactions.get_by_idempotency_key
  execute_transfer-ok {pair} {t} new h =
      let (source, target, a) = execute_new-ok {pair = pair} {t = t} new (ground (arith, new)) in
      (
        source,
        target,
        a,
        cc (execute_transfer-passes source target a),
        cc (execute_transfer-passes source target a),
      )
