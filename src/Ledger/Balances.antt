-- ===== src/Ledger/Balances.antt =====
-- The effect of one balance update and of one more row on the lookups, the totals and the ledger.
use nexobank_backend.Base.{
  ℕ, ◌≡◌, refl, ℤ, pos, ◌+ℤ◌, int_laws, String, false, Option, none, some, List, [], ◌∷◌, ◌++◌,
  arith, ◌==◌, str_eq, select_one, update_where, has_row, IsUnique, IsUnique-update_where,
  if◌then◌else◌,
}
use nexobank_backend.Models.{Account, Transaction}
use nexobank_backend.Repositories.Accounts.{has_id, same_id}
use nexobank_backend.Ledger.{ledger, entry, total, balance_in}

abbrev pub set_balance : ℕ → ℤ → List Account → List Account
set_balance k balance = update_where (has_id k) (λ a. record a { balance = balance })

abbrev pub rebalanced : ℕ → ℤ → Option Account → Option Account
rebalanced k balance none = none
rebalanced k balance (some a) = some (if a.id == k then record a { balance = balance } else a)

pub select_one-set_balance :
    (j k : ℕ) (balance : ℤ) (t : List Account)
    → select_one (has_id j) (set_balance k balance t)
      ≡ rebalanced k balance (select_one (has_id j) t)
select_one-set_balance j k balance [] = refl
select_one-set_balance j k balance (a ∷ t) = ground (arith, select_one-set_balance j k balance t)

pub IsUnique-set_balance :
    (k : ℕ) (balance : ℤ) (t : List Account)
    → IsUnique same_id t
    → IsUnique same_id (set_balance k balance t)
IsUnique-set_balance k balance t =
    IsUnique-update_where same_id (has_id k) (λ a. record a { balance = balance }) t (λ x y. refl)
      (λ x y. refl)

pub ledger-append : (k : ℕ) (t u : List Transaction) → ledger k (t ++ u) ≡ ledger k t +ℤ ledger k u
unfolding ledger
ledger-append k [] u = omega int_laws
ledger-append k (tx ∷ t) u = rw (ledger-append k t u) (omega int_laws)

pub ledger-one : (k : ℕ) (tx : Transaction) → ledger k (tx ∷ []) ≡ entry k tx
unfolding ledger
ledger-one k tx = omega int_laws

-- Below a row with the id, no other row has it.
set_balance-absent :
    (k : ℕ) (balance : ℤ) (a : Account) (t : List Account)
    → a.id ≡ k
    → has_row (same_id a) t ≡ false
    → set_balance k balance t ≡ t
set_balance-absent k balance a [] e h = refl
set_balance-absent k balance a (b ∷ t) e h = ground (arith, set_balance-absent k balance a t e)

-- Setting a balance moves the total of the account's currency by the difference, and no other.
pub total-set_balance :
    (c : String) (k : ℕ) (balance : ℤ) (a : Account) (t : List Account)
    → IsUnique same_id t
    → select_one (has_id k) t ≡ some a
    → total c (set_balance k balance t) +ℤ balance_in c a
      ≡ total c t +ℤ (if str_eq a.currency c then balance else pos 0)
unfolding total
total-set_balance c k balance a [] u h = ground arith
total-set_balance c k balance a (b ∷ t) u h =
    grind (int_laws, set_balance-absent k balance b t, total-set_balance c k balance a t u.1)
