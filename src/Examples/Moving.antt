-- ===== src/Examples/Moving.antt =====
-- Transfers on the small bank.
use nexobank_backend.Base.{
  ℕ, ◌≡◌, ◌≢◌, refl, pos, ◌+ℤ◌, ◌-ℤ◌, some, arith, select_one, upper, length_text, IsUnique, ◌≤◌,
}
use nexobank_backend.Models.{Account}
use nexobank_backend.Session.{Session, ok, err, domain, insufficient_funds, account_not_found}
use nexobank_backend.Repositories.Accounts
use nexobank_backend.Repositories.Accounts.{has_id}
use nexobank_backend.Repositories.Transactions.{refusal}
use nexobank_backend.Money.{fits_numeric}
use nexobank_backend.Ledger.{ledger, total, IsValid}
use nexobank_backend.Transfers.{Transfer, Pair, execute_transfer, is_supported}
use nexobank_backend.Transfers.Outcome.{out_row, in_row, applied}
use nexobank_backend.Transfers.Success.{Accepts, execute_transfer-passes, execute_transfer-ok}
use nexobank_backend.Transfers.Safety.{total-execute_transfer, execute_transfer_moves_funds}
use nexobank_backend.Transfers.Idempotency.{
  execute_transfer_replays, execute_transfer-companion_key, execute_transfer_key_length,
}
use nexobank_backend.Transfers.Refusals.{Refused, execute_transfer-Refused}
use nexobank_backend.Base.{length, none}
use mathlib.Core.Path.{ap}
use nexobank_backend.Repositories.Transactions.Paging.Ordering.{Chain}
use nexobank_backend.Repositories.Transactions.Paging.Reading.{statement_of, read_pages}
use nexobank_backend.Transfers.{get_account_transactions}
use nexobank_backend.Transfers.History.{read_pages_complete}
use nexobank_backend.Scenario.{length_text-tally, env, start, bank, source, target, transfer}

bank_ids : IsUnique Accounts.same_id bank.accounts
bank_ids = (refl, (refl, tt))

accepted : Accepts env transfer source target start
unfolding upper fits_numeric refusal is_supported ◌-ℤ◌ ◌+ℤ◌
accepted = record {
  key_is_new = refl;
  inputs = record { positive = omega arith; supported = refl; distinct = omega arith };
  source_found = refl;
  target_found = refl;
  owned = refl;
  rules = record {
    source_active = refl;
    target_active = refl;
    source_currency = refl;
    target_currency = refl;
    covered = omega arith;
  };
  room = record { debit_fits = refl; credit_fits = refl; out_fits = refl; in_fits = refl };
}

pub bank-IsValid : IsValid bank
unfolding ledger ◌+ℤ◌
bank-IsValid = record {
  account_ids = bank_ids;
  transaction_ids = (refl, tt);
  keys = (refl, tt);
  nonneg = λ k a h. ground (arith);
  reconciled = λ k a h. ground (arith);
  unowned = λ k h. ground (arith);
}

abbrev rows : Pair
rows = (out_row env transfer 0, in_row env transfer 0)

abbrev after : Session
after = applied env transfer source target start

returned : execute_transfer env transfer start ≡ (ok rows, after)
returned = execute_transfer-passes env transfer start bank_ids source target accepted

total-execute_transfer_example : total "MXN" after.db.accounts ≡ total "MXN" bank.accounts
total-execute_transfer_example =
    total-execute_transfer env transfer start bank-IsValid {pair = rows} {t = after} returned "MXN"

execute_transfer_moves_funds_example :
    (a : Account) × (b : Account) × (select_one (has_id 10) bank.accounts ≡ some a)
    × (select_one (has_id 20) bank.accounts ≡ some b)
    × (select_one (has_id 10) after.db.accounts
        ≡ some (record a { balance = a.balance -ℤ pos 1230 }))
    × (select_one (has_id 20) after.db.accounts
        ≡ some (record b { balance = b.balance +ℤ pos 1230 }))
    × ((k : ℕ)
        → k ≢ 10
        → k ≢ 20
        → select_one (has_id k) after.db.accounts ≡ select_one (has_id k) bank.accounts)
execute_transfer_moves_funds_example =
    execute_transfer_moves_funds env transfer start bank-IsValid {pair = rows} {t = after} returned
      refl

execute_transfer-ok_example :
    (a : Account) × (b : Account) × Accepts env transfer a b start
    × (rows ≡ (out_row env transfer 0, in_row env transfer 0))
    × (after ≡ applied env transfer a b start)
execute_transfer-ok_example =
    execute_transfer-ok env transfer start bank_ids {pair = rows} {t = after} refl returned

-- the same key, with other arguments and by Ben
abbrev other : Transfer
other = record transfer { amount = pos 999999; requesting_user_id = 2; from_account_id = 20 }

execute_transfer_replays_example : execute_transfer env other after ≡ (ok rows, after)
execute_transfer_replays_example =
    execute_transfer_replays env transfer start bank_ids refl {pair = rows} {t = after} returned
      other refl

-- a fresh key that looks like a companion
abbrev clash : Transfer
clash = record transfer { idempotency_key = "key_in" }

execute_transfer-companion_key_example :
    execute_transfer env clash after ≡ (err (domain account_not_found), after)
execute_transfer-companion_key_example =
    execute_transfer-companion_key env transfer start bank_ids refl {pair = rows} {t = after}
      returned clash refl refl

execute_transfer_key_length_example : length_text "key" ≤ 61
execute_transfer_key_length_example =
    execute_transfer_key_length env transfer start bank_ids refl {pair = rows} {t = after} returned

-- more than Ana has
abbrev pub too_much : Transfer
too_much = record transfer { amount = pos 5001 }

overdrawn : Refused too_much bank insufficient_funds
unfolding upper is_supported
overdrawn =
    Refused.overdraft source target
      (record {
        inputs = record { positive = omega arith; supported = refl; distinct = omega arith };
        source_found = refl;
        owned = refl;
        target_found = refl;
      })
      refl refl refl refl (omega arith) refl

execute_transfer-Refused_example :
    execute_transfer env too_much start ≡ (err (domain insufficient_funds), start)
execute_transfer-Refused_example =
    execute_transfer-Refused env too_much start bank_ids insufficient_funds refl overdrawn

-- Ana reads her two transactions on pages of one row.
two_rows : length (statement_of 10 after.db.transactions) ≡ 2
unfolding statement_of
two_rows = refl

read_pages_complete_example :
    (read_pages (get_account_transactions env 10 1 1) 3 none after
      ≡ (ok (statement_of 10 after.db.transactions), after))
    × Chain (statement_of 10 after.db.transactions)
unfolding ◌-ℤ◌
read_pages_complete_example =
    read_pages_complete env 10 1 1 after (record source { balance = pos 3770 }) refl refl
      (refl, (refl, (refl, tt))) (λ text. refl) (λ k. ap some (length_text-tally k)) (omega arith) 3
      (omega (arith, two_rows))
