-- ===== src/Transfers/Accounting.antt =====
-- What an accepted transfer does to the money: the two balances, the totals, and the invariant.
use nexobank_backend.Base.{
  ℕ, ◌≡◌, ◌≢◌, sym, ◌∙◌, pos, none, ◌+ℤ◌, ◌-ℤ◌, ◌≤ℤ◌, int_laws, String, some, List, [], ◌∷◌, ◌++◌,
  arith, ==_iff, select_one, select_one_holds, IsUnique, inl, inr, Option-cases,
}
use nexobank_backend.Models.{Account, Transaction}
use nexobank_backend.Session.{Env, Session, Db}
use nexobank_backend.Repositories.Accounts.{has_id, same_id}
use nexobank_backend.Ledger.{ledger, total, entry, IsValid}
use nexobank_backend.Ledger.Balances.{
  set_balance, select_one-set_balance, IsUnique-set_balance, ledger-append, ledger-one,
  total-set_balance, rebalanced,
}
use nexobank_backend.Ledger.Appending.{append_new-ids, append_new-keys}
use nexobank_backend.Transfers.{Transfer}
use nexobank_backend.Transfers.Outcome.{applied, out_row, in_row, debited, credited}
use nexobank_backend.Transfers.Success.{Accepts}

module _ (env : Env) (p : Transfer) (source target : Account) (s : Session)
    (a : Accepts env p source target s) (unique : IsUnique same_id s.db.accounts) where
  abbrev after : Db
  after = (applied env p source target s).db

  source_id : source.id ≡ p.from_account_id
  source_id =
      (==_iff _ _).0
        (select_one_holds (has_id p.from_account_id) s.db.accounts source a.source_found)

  target_id : target.id ≡ p.to_account_id
  target_id =
      (==_iff _ _).0 (select_one_holds (has_id p.to_account_id) s.db.accounts target a.target_found)

  -- the lookups in the accounts after the transfer
  after_lookup :
      (k : ℕ)
      → select_one (has_id k) after.accounts
        ≡ rebalanced p.to_account_id (target.balance +ℤ p.amount) (
            rebalanced p.from_account_id
              (source.balance -ℤ p.amount)
              (select_one (has_id k) s.db.accounts))
  after_lookup k = rw (
    select_one-set_balance k target.id (credited p target)
        (set_balance source.id (debited p source) s.db.accounts),
    select_one-set_balance k source.id (debited p source) s.db.accounts,
    source_id,
    target_id,
  )

  -- what the two rows add to an account
  after_ledger :
      (k : ℕ)
      → ledger k after.transactions
        ≡ ledger k s.db.transactions
          +ℤ entry k (out_row env p s.calls)
          +ℤ entry k (in_row env p s.calls)
  after_ledger k = rw (
    ledger-append k (s.db.transactions ++ out_row env p s.calls ∷ []) (in_row env p s.calls ∷ []),
    ledger-append k s.db.transactions (out_row env p s.calls ∷ []),
    ledger-one k (out_row env p s.calls),
    ledger-one k (in_row env p s.calls),
  )

  -- The two balances after an accepted transfer.
  pub source_after :
      select_one (has_id p.from_account_id) after.accounts
      ≡ some (record source { balance = source.balance -ℤ p.amount })
  source_after =
      rw (after_lookup p.from_account_id, a.source_found)
        (ground (arith, source_id, a.inputs.distinct))

  pub target_after :
      select_one (has_id p.to_account_id) after.accounts
      ≡ some (record target { balance = target.balance +ℤ p.amount })
  target_after =
      rw (after_lookup p.to_account_id, a.target_found)
        (ground (arith, target_id, a.inputs.distinct))

  -- Any other account keeps its row.
  pub others_after :
      (k : ℕ)
      → k ≢ p.from_account_id
      → k ≢ p.to_account_id
      → select_one (has_id k) after.accounts ≡ select_one (has_id k) s.db.accounts
  others_after k nf nt = elim (Option-cases (select_one (has_id k) s.db.accounts)) [
    | inl e ↦ rw (after_lookup k, e)
    | inr (b, e) ↦
        rw (after_lookup k, e) (ground (arith, select_one_holds (has_id k) s.db.accounts b e))
  ]

  -- the target's row, when the source is debited and it is not yet credited
  target_between :
      select_one (has_id target.id) (set_balance source.id (debited p source) s.db.accounts)
      ≡ some target
  target_between =
      rw
        (
          select_one-set_balance target.id source.id (debited p source) s.db.accounts,
          target_id,
          a.target_found,
        )
        (ground (arith, source_id, target_id, a.inputs.distinct))

  source_before : select_one (has_id source.id) s.db.accounts ≡ some source
  source_before = cc (source_id, a.source_found)

  same_currency : source.currency ≡ target.currency
  same_currency = a.rules.source_currency ∙ sym a.rules.target_currency

  -- The money of every currency is the same before and after.
  pub total_after : (c : String) → total c after.accounts ≡ total c s.db.accounts
  total_after c = grind (
    int_laws,
    same_currency,
    total-set_balance c source.id (debited p source) source s.db.accounts unique source_before,
    total-set_balance c target.id (credited p target) target
        (set_balance source.id (debited p source) s.db.accounts)
        (IsUnique-set_balance source.id (debited p source) s.db.accounts unique) target_between,
  )

  module _ (v : IsValid s.db) where
    reconciled_after :
        (k : ℕ) (b : Account)
        → select_one (has_id k) after.accounts ≡ some b
        → (pos 0 ≤ℤ b.balance) × (b.balance ≡ ledger k after.transactions)
    reconciled_after k b h = elim (Option-cases (select_one (has_id k) s.db.accounts)) [
      | inl missing ↦ absurd (ground (arith, after_lookup k))
      | inr (old, e) ↦ grind (
        int_laws,
        after_lookup k,
        after_ledger k,
        select_one_holds (has_id k) s.db.accounts old e,
        v.nonneg k old e,
        v.reconciled k old e,
        a.source_found,
        a.target_found,
        a.inputs,
        a.rules.covered,
      )
    ]

    unowned_after :
        (k : ℕ) → select_one (has_id k) after.accounts ≡ none → ledger k after.transactions ≡ pos 0
    unowned_after k h = elim (Option-cases (select_one (has_id k) s.db.accounts)) [
      | inl e ↦
          grind (int_laws, after_ledger k, v.unowned k e, a.source_found, a.target_found, a.inputs)
      | inr (old, e) ↦ absurd (ground (arith, after_lookup k, e))
    ]

    -- An accepted transfer keeps the invariant.
    pub applied-IsValid : IsValid after
    applied-IsValid = record {
      account_ids =
          IsUnique-set_balance target.id (credited p target) _
            (IsUnique-set_balance source.id (debited p source) s.db.accounts v.account_ids);
      transaction_ids = append_new-ids rows2 (in_row env p s.calls) a.room.in_fits (
          append_new-ids s.db.transactions (out_row env p s.calls) a.room.out_fits
            v.transaction_ids);
      keys =
          append_new-keys rows2 (in_row env p s.calls) a.room.in_fits
            (append_new-keys s.db.transactions (out_row env p s.calls) a.room.out_fits v.keys);
      nonneg = λ k b h. (reconciled_after k b h).0;
      reconciled = λ k b h. (reconciled_after k b h).1;
      unowned = unowned_after;
    }
      where
        rows2 : List Transaction
        rows2 = s.db.transactions ++ out_row env p s.calls ∷ []
