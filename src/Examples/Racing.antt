-- ===== src/Examples/Racing.antt =====
-- Two transfers in opposite directions at the same time on the small bank.
use nexobank_backend.Base.{
  upper, ℕ, ◌≡◌, ◌≢◌, refl, pos, Option, none, some, arith, ◌==◌, if◌then◌else◌, true, false, Bool,
}
use nexobank_backend.Models.{Transaction}
use nexobank_backend.Session.{Result}
use nexobank_backend.Ledger.{IsValid}
use nexobank_backend.Transfers.{Transfer}
use nexobank_backend.Repositories.Accounts
use nexobank_backend.Session.{with_session}
use nexobank_backend.Transfers.{validate_inputs, is_supported, check_owner, validate_account_owner}
use nexobank_backend.Concurrency.{
  check_key, check_inputs, ascending, take_row, Bank, answered, step, Interleaved, at_start, after,
  arrival,
}
use nexobank_backend.Concurrency.Histories.{History, Serial, answer_of, outcome}
use nexobank_backend.Concurrency.Progress.{CanStep}
use nexobank_backend.Concurrency.Interleavings.{
  interleaved-Serial, interleaved-IsValid, interleaved-CanStep,
}
use nexobank_backend.Examples.Moving.{bank-IsValid}
use nexobank_backend.Scenario.{env, bank, transfer}

-- 1.00 MXN from Ben to Ana
abbrev back : Transfer
back = record transfer {
  from_account_id = 20;
  to_account_id = 10;
  amount = pos 100;
  idempotency_key = "back";
  requesting_user_id = 2;
}

abbrev both : ℕ → Transfer
both i = if i == 0 then transfer else back

abbrev at_door : Bank
at_door = arrival bank 0 both

abbrev or_stay : Bank → Option Bank → Bank
or_stay st none = st
or_stay st (some next) = next

abbrev go : ℕ → Bank → Bank
go i st = or_stay st (step env i st)

abbrev moves : Option Bank → Bool
moves none = false
moves (some next) = true

-- both are in their lock query, and hold nothing
abbrev locking_first : Bank
locking_first = go 1 (go 0 (go 1 (go 0 at_door)))

-- both have come to their lock query, and the first has both rows
abbrev racing : Bank
racing = go 0 (go 0 locking_first)

-- the second waits
second_waits : step env 1 racing ≡ none
unfolding step check_key check_inputs with_session validate_inputs is_supported upper check_owner
    Accounts.get_by_id validate_account_owner ascending take_row
second_waits = refl

first_goes : moves (step env 0 racing) ≡ true
unfolding step check_key check_inputs with_session validate_inputs is_supported upper check_owner
    Accounts.get_by_id validate_account_owner ascending take_row
first_goes = refl

second_open : (r : Result Transaction) → racing.workers 1 ≢ answered r
unfolding step check_key check_inputs with_session validate_inputs is_supported upper check_owner
    Accounts.get_by_id validate_account_owner ascending take_row
second_open r e = ground arith

going :
    (i : ℕ) (st : Bank)
    → moves (step env i st) ≡ true
    → Interleaved env at_door st
    → Interleaved env at_door (go i st)
going i st e h = after st (go i st) i h (ground (arith, e))

to_racing : Interleaved env at_door racing
unfolding step check_key check_inputs with_session validate_inputs is_supported upper check_owner
    Accounts.get_by_id validate_account_owner ascending take_row
to_racing = going 0 (go 0 locking_first) refl (
    going 0 locking_first refl (
      going 1 (go 0 (go 1 (go 0 at_door))) refl (
        going 0 (go 1 (go 0 at_door)) refl
          (going 1 (go 0 at_door) refl (going 0 at_door refl at_start)))))

interleaved-Serial_example :
    (h : History) × Serial env both bank h (go 0 racing).db
    × ((i : ℕ) → answer_of i h ≡ outcome ((go 0 racing).workers i))
interleaved-Serial_example =
    interleaved-Serial env both bank 0 bank-IsValid (go 0 racing)
      (going 0 racing first_goes to_racing)

interleaved-IsValid_example : IsValid (go 0 racing).db
interleaved-IsValid_example =
    interleaved-IsValid env both bank 0 bank-IsValid (go 0 racing)
      (going 0 racing first_goes to_racing)

interleaved-CanStep_example : CanStep env racing
interleaved-CanStep_example =
    interleaved-CanStep env both bank 0 bank-IsValid racing to_racing 1 second_open
