-- ===== src/Examples/Balancing.antt =====
-- Deposits and new accounts on the small bank.
use nexobank_backend.Base.{◌≡◌, refl, pos, negsuc, [], ◌∷◌, none, upper}
use nexobank_backend.Models.{Account, AccountType, Transaction}
use nexobank_backend.Money.{Decimal}
use nexobank_backend.Session.{Session, ok}
use nexobank_backend.Repositories.Accounts
use nexobank_backend.Repositories.Accounts.{generate_account_number}
use nexobank_backend.Accounts.{deposit_funds, create_account}
use nexobank_backend.Accounts.Deposits.{deposit_row}
use nexobank_backend.Accounts.Opening.{Opened, create_account-Opened}
use nexobank_backend.Transfers.{is_supported}
use nexobank_backend.Repositories.AuditLogs
use nexobank_backend.Repositories.Transactions
use nexobank_backend.Scenario.{env, start, bank, source}

-- 0.005, half a cent
abbrev half_cent : Decimal
half_cent = record { coefficient = pos 5; exponent = negsuc 2 }

abbrev deposited_row : Transaction
deposited_row = deposit_row env 10 1 half_cent none none 0

abbrev after_deposit : Session
after_deposit = (deposit_funds env 10 1 half_cent none none start).1

abbrev opened : Account
opened = record source {
  id = 101;
  created_at = 1002;
  account_number = "USD1234";
  currency = "USD";
  balance = pos 0;
}

abbrev after_opening : Session
after_opening = (create_account env 1 "usd" AccountType.checking start).1

opening_returned :
    create_account env 1 "usd" AccountType.checking start ≡ (ok opened, after_opening)
unfolding create_account is_supported upper Accounts.create generate_account_number
    Accounts.flush_row AuditLogs.log
opening_returned = refl

create_account-Opened_example : Opened 1 "usd" AccountType.checking start opened after_opening
create_account-Opened_example =
    create_account-Opened env 1 "usd" AccountType.checking start {a = opened} {t = after_opening}
      opening_returned

-- a bank whose one account has the only number that is ever drawn
abbrev full : Session
full = record start {
  db = record bank { accounts = record source { account_number = "MXN1234" } ∷ [] };
}
