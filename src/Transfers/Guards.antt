-- ===== src/Transfers/Guards.antt =====
-- The guards of `execute_transfer`: what each one has checked when it lets a transfer pass, and that
-- it changes nothing.
use nexobank_backend.Base.{
  ◌≡◌, ◌≢◌, pos, ◌≤ℤ◌, true, some, arith, select_one, upper, eq_iff, Option-cases, inl, inr,
}
use nexobank_backend.Models.{Account, AccountStatus}
use nexobank_backend.Session.{Session, ok}
use nexobank_backend.Repositories.Accounts
use nexobank_backend.Repositories.Accounts.{has_id}
use nexobank_backend.Transfers.{
  Transfer, is_supported, is_active_status, validate_account_active, validate_account_owner,
  validate_inputs, check_owner, check_rules,
}

pub record InputsFit (p : Transfer) : Type 0 where
  pub positive : pos 1 ≤ℤ p.amount
  pub supported : is_supported (upper p.currency) ≡ true
  pub distinct : p.from_account_id ≢ p.to_account_id

pub validate_inputs-ok :
    (p : Transfer) (s : Session) {u : Unit {0}} {t : Session}
    → validate_inputs p s ≡ (ok u, t)
    → InputsFit p × (t ≡ s)
unfolding validate_inputs
validate_inputs-ok p s h = (
  record { positive = ground arith; supported = ground arith; distinct = ground arith },
  ground arith,
)

abbrev pub OwnedBy : Transfer → Session → Type 0
OwnedBy p s =
    (a : Account) × (select_one (has_id p.from_account_id) s.db.accounts ≡ some a)
    × (a.user_id ≡ p.requesting_user_id)

pub check_owner-ok :
    (p : Transfer) (s : Session) {u : Unit {0}} {t : Session}
    → check_owner p s ≡ (ok u, t)
    → OwnedBy p s × (t ≡ s)
unfolding check_owner validate_account_owner Accounts.get_by_id
check_owner-ok p s h = elim (Option-cases (select_one (has_id p.from_account_id) s.db.accounts)) [
  | inl missing ↦ absurd (ground arith)
  | inr (a, found) ↦ ((a, found, ground arith), ground arith)
]

-- What step 5 has found of the two locked rows.
pub record RulesFit (p : Transfer) (source target : Account) : Type 0 where
  pub source_active : source.status ≡ AccountStatus.active
  pub target_active : target.status ≡ AccountStatus.active
  pub source_currency : source.currency ≡ upper p.currency
  pub target_currency : target.currency ≡ upper p.currency
  pub covered : p.amount ≤ℤ source.balance

active_of_test : (x : AccountStatus) → is_active_status x ≡ true → x ≡ AccountStatus.active
active_of_test x h = ground arith

pub check_rules-ok :
    (p : Transfer) (source target : Account) (s : Session) {u : Unit {0}} {t : Session}
    → check_rules p source target s ≡ (ok u, t)
    → RulesFit p source target × (t ≡ s)
unfolding check_rules validate_account_active
check_rules-ok p source target s h = (
  record {
    source_active = active_of_test source.status (ground arith);
    target_active = active_of_test target.status (ground arith);
    source_currency = (eq_iff source.currency (upper p.currency)).0 (ground arith);
    target_currency = (eq_iff target.currency (upper p.currency)).0 (ground arith);
    covered = ground arith;
  },
  ground arith,
)

-- The guards let pass what fits.
pub validate_inputs-passes :
    (p : Transfer) (s : Session) → InputsFit p → validate_inputs p s ≡ (ok tt, s)
unfolding validate_inputs
validate_inputs-passes p s f = ground arith

pub check_owner-passes :
    (p : Transfer) (s : Session) (a : Account)
    → select_one (has_id p.from_account_id) s.db.accounts ≡ some a
    → a.user_id ≡ p.requesting_user_id
    → check_owner p s ≡ (ok tt, s)
unfolding check_owner validate_account_owner Accounts.get_by_id
check_owner-passes p s a e o = ground arith

pub check_rules-passes :
    (p : Transfer) (source target : Account) (s : Session)
    → RulesFit p source target
    → check_rules p source target s ≡ (ok tt, s)
unfolding check_rules validate_account_active
check_rules-passes p source target s f =
    ground
      (arith, eq_iff source.currency (upper p.currency), eq_iff target.currency (upper p.currency))
