-- ===== src/Scenario.antt =====
-- A small bank for the examples: two customers with an account each, a card, a refresh token, a reset
-- token, a push token, and stand-ins for what the program takes from outside.
use text.Mathlib.TextLemmas.{length-append}
use Prim.Native.Char.{code}
use mathlib.Core.List.Perm
use mathlib.Core.List.Permᴰ
use nexobank_backend.Base.{
  ◌&&◌, not, String, ◌+◌, pos, true, false, none, some, [], ◌∷◌, leb, str_eq, if◌then◌else◌, ℕ,
  zero, suc, ◌<>◌, ◌≡◌, refl, arith, length_text,
}
use nexobank_backend.Models.{
  User, UserStatus, UserRole, Account, AccountStatus, AccountType, Transaction, TransactionType,
  TransactionStatus, RefreshToken, PasswordResetToken, DeviceToken, DevicePlatform, Card, CardType,
  CardStatus, Date,
}
use nexobank_backend.Session.{Env, Db, Session}
use nexobank_backend.Transfers.{Transfer}

abbrev pub leap_day : Date
leap_day = record { year = 2024; month = 2; day = 29 }

-- a text for every number, of that many characters
unfoldable pub tally : ℕ → String
tally zero = ""
tally (suc n) = "x" <> tally n

pub length_text-tally : (n : ℕ) → length_text (tally n) ≡ n
unfolding tally
length_text-tally zero = refl
length_text-tally (suc n) = ground (arith, length-append "x" (tally n), length_text-tally n)

abbrev pub env : Env
env = record {
  settings = record {
    secret_key = "secret";
    access_token_expire_minutes = 15;
    refresh_token_expire_days = 7;
    internal_api_key = "internal";
    environment = "production";
  };
  uuid4 = λ n. n + 100;
  now = λ n. n + 1000;
  today = λ n. leap_day;
  token_urlsafe = λ n k. if leb n 4 then "new token" else "newer token";
  random_digits = λ n k. "1234";
  sha256_hex = λ s. s;
  hash = λ n p. p;
  verify = λ p h. str_eq p h;
  is_oversized = λ p. leb 4097 (length_text p);
  jwt_encode = λ claims key. "jwt";
  jwt_decode = λ now token key. none;
  uuid_text = tally;
  parse_uuid = λ s. some (length_text s);
  b64encode = λ s. s;
  b64decode = λ s. some s;
  validate_email = λ s. some s;
  jsonb_accepts = λ s. not (str_eq s "nul");
  account_scan = λ n rows. (rows, Permᴰ.refl rows);
  token_scan = λ n rows. (rows, Permᴰ.refl rows);
  card_scan = λ n rows. (rows, Perm.refl rows);
  is_decimal = λ c. leb 48 (code c) && leb (code c) 57;
}

abbrev pub ana : User
ana = record {
  id = 1;
  created_at = 0;
  email = "ana@example.com";
  password_hash = "password1";
  full_name = "Ana";
  phone = none;
  status = UserStatus.active;
  role = UserRole.customer;
}

abbrev pub ben : User
ben = record ana { id = 2; email = "ben@example.com"; status = UserStatus.suspended }

-- 50.00 MXN of Ana's, and nothing of Ben's
abbrev pub source : Account
source = record {
  id = 10;
  created_at = 0;
  user_id = 1;
  account_number = "MXN0001";
  currency = "MXN";
  balance = pos 5000;
  status = AccountStatus.active;
  type = AccountType.checking;
}

abbrev pub target : Account
target = record source { id = 20; user_id = 2; account_number = "MXN0002"; balance = pos 0 }

abbrev pub first_deposit : Transaction
first_deposit = record {
  id = 30;
  created_at = 0;
  account_id = 10;
  counterparty_account_id = none;
  type = TransactionType.deposit;
  amount = pos 5000;
  status = TransactionStatus.completed;
  idempotency_key = none;
  reference_transaction_id = none;
  description = some "External deposit";
}

abbrev pub refresh_token : RefreshToken
refresh_token = record {
  id = 40;
  created_at = 0;
  user_id = 1;
  token_hash = "refresh";
  expires_at = 2000;
  revoked = false;
}

abbrev pub reset_token : PasswordResetToken
reset_token = record {
  id = 50;
  created_at = 0;
  user_id = 1;
  token_hash = "reset";
  expires_at = 2000;
  used = false;
}

abbrev pub device_token : DeviceToken
device_token = record {
  id = 60;
  created_at = 0;
  user_id = 1;
  token = "push";
  platform = DevicePlatform.ios;
  active = true;
}

abbrev pub card : Card
card = record {
  id = 70;
  created_at = 0;
  account_id = 10;
  last4 = "0001";
  type = CardType.debit;
  status = CardStatus.cancelled;
  expires_at = leap_day;
}

abbrev pub bank : Db
bank = record {
  users = ana ∷ ben ∷ [];
  accounts = source ∷ target ∷ [];
  transactions = first_deposit ∷ [];
  refresh_tokens = refresh_token ∷ [];
  password_reset_tokens = reset_token ∷ [];
  device_tokens = device_token ∷ [];
  cards = card ∷ [];
  audit_logs = [];
}

abbrev pub start : Session
start = record { db = bank; committed = bank; calls = 0 }

-- 12.30 MXN from Ana to Ben
abbrev pub transfer : Transfer
transfer = record {
  from_account_id = 10;
  to_account_id = 20;
  amount = pos 1230;
  currency = "mxn";
  idempotency_key = "key";
  requesting_user_id = 1;
  description = none;
  ip_address = none;
}
