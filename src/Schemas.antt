-- ===== src/Schemas.antt =====
-- app/schemas/: the checks of request bodies, and the models of responses. A refused body is answered
-- with 422 before the route runs.
pub mod Amounts
use Prim.Native.Char.{Char, code}
use nexobank_backend.Models.{Host}
use nexobank_backend.Base.{
  ℕ, zero, suc, ◌+◌, ◌*◌, ◌^◌, ℤ, pos, negsuc, pos_part, neg_part, leb_ℤ, String, Bool, true, false,
  ◌&&◌, ◌||◌, not, Option, none, some, List, [], ◌∷◌, leb, ltb, length, length_text, upper,
  if◌then◌else◌,
}
use nexobank_backend.Models.{
  User, UserStatus, UserRole, Account, AccountStatus, AccountType, Transaction, TransactionType,
  TransactionStatus, DeviceToken, DevicePlatform, Card, CardType, CardStatus, Date,
}
use nexobank_backend.Money.{Decimal, scale, context_limit}
use nexobank_backend.Session.{
  Env, http, runtime_error, Action, pure, raise_if, or_raise, ◌>>=◌, ◌>>◌,
}
use nexobank_backend.Transfers.{Transfer, is_supported}

abbrev pub map : {A B : Type 0} → (A → B) → List A → List B
map f [] = []
map f (x ∷ xs) = f x ∷ map f xs

-- schemas/transaction.py

-- `exponent < -2`
abbrev pub has_thousandths : ℤ → Bool
has_thousandths (pos n) = false
has_thousandths (negsuc n) = leb 2 n

-- the coefficient of `v.quantize(Decimal("0.01"))` for an exponent of at least -2
unfoldable pub quantized : ℤ → ℤ → ℤ
unfolding scale
quantized coefficient (pos n) = scale (10 ^ (n + 2)) coefficient
quantized coefficient (negsuc zero) = scale 10 coefficient
quantized coefficient (negsuc (suc n)) = coefficient

-- `TransferRequest.validate_amount`, in cents. `quantize` raises an `InvalidOperation` past the digits
-- of the context. An `InvalidOperation` is no `ValueError`: the body is
-- not refused, the request fails.
unfoldable pub validate_amount : Decimal → Action ℤ
validate_amount v = do
  raise_if (leb_ℤ v.coefficient (pos 0)) (http 422)
  raise_if (has_thousandths v.exponent) (http 422)
  raise_if (leb context_limit (pos_part (quantized v.coefficient v.exponent))) runtime_error
  pure (quantized v.coefficient v.exponent)

-- `TransferRequest.validate_currency` and `AccountCreate.validate_currency`
unfoldable pub validate_currency : String → Action String
validate_currency v = do raise_if (not (is_supported (upper v))) (http 422); pure (upper v)

-- `max_length` of an optional text
abbrev pub fits_length : ℕ → Option String → Bool
fits_length n none = true
fits_length n (some v) = leb (length_text v) n

-- `TransferRequest`, as it is sent
pub record TransferRequest : Type 0 where
  pub from_account_id : ℕ
  pub to_account_id : ℕ
  pub amount : Decimal
  pub currency : String
  pub idempotency_key : String
  pub description : Option String

-- the checks of `TransferRequest`, and the arguments that `create_transfer` passes on
unfoldable pub validate_transfer : TransferRequest → ℕ → Option Host → Action Transfer
validate_transfer body user_id ip_address = do
  amount ← validate_amount body.amount
  currency ← validate_currency body.currency
  raise_if
      (not (leb 1 (length_text body.idempotency_key) && leb (length_text body.idempotency_key) 64))
      (http 422)
  raise_if (not (fits_length 255 body.description)) (http 422)
  pure (record {
    from_account_id = body.from_account_id;
    to_account_id = body.to_account_id;
    amount = amount;
    currency = currency;
    idempotency_key = body.idempotency_key;
    requesting_user_id = user_id;
    description = body.description;
    ip_address = ip_address;
  })

-- schemas/auth.py

-- `re.search` of one character of a class
abbrev pub has_char : (Char → Bool) → String → Bool
has_char test String.[] = false
has_char test (String.◌∷◌ c s) = test c || has_char test s

-- `[A-Za-z]`
abbrev pub is_letter : Char → Bool
is_letter c = (leb 65 (code c) && leb (code c) 90) || (leb 97 (code c) && leb (code c) 122)

-- `password_strength` of `RegisterRequest` and `ResetPasswordRequest`
unfoldable pub password_strength : Env → String → Action (Unit {0})
password_strength env v = do
  raise_if (ltb (length_text v) 8) (http 422)
  raise_if (not (has_char is_letter v)) (http 422)
  raise_if (not (has_char env.is_decimal v)) (http 422)

-- `EmailStr`
unfoldable pub email_str : Env → String → Action String
email_str env v = or_raise (env.validate_email v) (http 422)

pub record TokenResponse : Type 0 where
  pub access_token : String
  pub refresh_token : String
  pub token_type : String

pub record ForgotPasswordResponse : Type 0 where
  pub message : String
  pub reset_token : Option String

-- schemas/user.py
pub record UserResponse : Type 0 where
  pub id : ℕ
  pub email : String
  pub full_name : String
  pub phone : Option String
  pub status : UserStatus
  pub role : UserRole
  pub created_at : ℕ

abbrev pub user_response : User → UserResponse
user_response u = record {
  id = u.id;
  email = u.email;
  full_name = u.full_name;
  phone = u.phone;
  status = u.status;
  role = u.role;
  created_at = u.created_at;
}

-- schemas/account.py
pub record AccountResponse : Type 0 where
  pub id : ℕ
  pub account_number : String
  pub currency : String
  pub balance : ℤ
  pub status : AccountStatus
  pub type : AccountType
  pub created_at : ℕ

abbrev pub account_response : Account → AccountResponse
account_response a = record {
  id = a.id;
  account_number = a.account_number;
  currency = a.currency;
  balance = a.balance;
  status = a.status;
  type = a.type;
  created_at = a.created_at;
}

pub record AccountListResponse : Type 0 where
  pub items : List AccountResponse
  pub total : ℕ

-- `TransactionResponse` and `TransactionListResponse` of schemas/transaction.py
pub record TransactionResponse : Type 0 where
  pub id : ℕ
  pub account_id : ℕ
  pub counterparty_account_id : Option ℕ
  pub type : TransactionType
  pub amount : ℤ
  pub status : TransactionStatus
  pub description : Option String
  pub created_at : ℕ

abbrev pub transaction_response : Transaction → TransactionResponse
transaction_response t = record {
  id = t.id;
  account_id = t.account_id;
  counterparty_account_id = t.counterparty_account_id;
  type = t.type;
  amount = t.amount;
  status = t.status;
  description = t.description;
  created_at = t.created_at;
}

pub record TransactionListResponse : Type 0 where
  pub items : List TransactionResponse
  pub next_cursor : Option String
  pub has_more : Bool

-- schemas/card.py
pub record CardResponse : Type 0 where
  pub id : ℕ
  pub last4 : String
  pub type : CardType
  pub status : CardStatus
  pub expires_at : Date
  pub created_at : ℕ

abbrev pub card_response : Card → CardResponse
card_response c = record {
  id = c.id;
  last4 = c.last4;
  type = c.type;
  status = c.status;
  expires_at = c.expires_at;
  created_at = c.created_at;
}

-- schemas/device_token.py
pub record DeviceTokenResponse : Type 0 where
  pub id : ℕ
  pub token : String
  pub platform : DevicePlatform
  pub active : Bool
  pub created_at : ℕ

abbrev pub device_token_response : DeviceToken → DeviceTokenResponse
device_token_response d = record {
  id = d.id;
  token = d.token;
  platform = d.platform;
  active = d.active;
  created_at = d.created_at;
}

pub record DeviceTokenListResponse : Type 0 where
  pub items : List DeviceTokenResponse
  pub total : ℕ
