-- ===== src/Models.antt =====
-- The rows of the tables (app/models/). A UUID and a moment are numbers: the first is only compared
-- and ordered, the second is counted in microseconds. `updated_at` is left out: nothing reads it.
use nexobank_backend.Base.{ℕ, ℤ, String, Bool, true, false, Option, List, ◌≡◌, leb, length_text}

-- app/models/user.py
pub data UserStatus : Type 0 where
  active inactive suspended : UserStatus

pub data UserRole : Type 0 where
  customer admin : UserRole

pub record User : Type 0 where
  pub id : ℕ
  pub created_at : ℕ
  pub email : String
  pub password_hash : String
  pub full_name : String
  pub phone : Option String
  pub status : UserStatus
  pub role : UserRole

abbrev pub is_active_status : UserStatus → Bool
is_active_status UserStatus.active = true
is_active_status UserStatus.inactive = false
is_active_status UserStatus.suspended = false

-- `User.is_active`
unfoldable pub is_active : User → Bool
is_active u = is_active_status u.status

-- app/models/account.py; the balance is in cents
pub data AccountStatus : Type 0 where
  active frozen closed : AccountStatus

pub data AccountType : Type 0 where
  checking savings : AccountType

pub record Account : Type 0 where
  pub id : ℕ
  pub created_at : ℕ
  pub user_id : ℕ
  pub account_number : String
  pub currency : String
  pub balance : ℤ
  pub status : AccountStatus
  pub type : AccountType

-- app/models/transaction.py
pub data TransactionType : Type 0 where
  deposit withdrawal transfer_out transfer_in : TransactionType

pub data TransactionStatus : Type 0 where
  pending completed reversed : TransactionStatus

pub record Transaction : Type 0 where
  pub id : ℕ
  pub created_at : ℕ
  pub account_id : ℕ
  pub counterparty_account_id : Option ℕ
  pub type : TransactionType
  pub amount : ℤ
  pub status : TransactionStatus
  pub idempotency_key : Option String
  pub reference_transaction_id : Option ℕ
  pub description : Option String

-- app/models/refresh_token.py
pub record RefreshToken : Type 0 where
  pub id : ℕ
  pub created_at : ℕ
  pub user_id : ℕ
  pub token_hash : String
  pub expires_at : ℕ
  pub revoked : Bool

-- app/models/password_reset_token.py
pub record PasswordResetToken : Type 0 where
  pub id : ℕ
  pub created_at : ℕ
  pub user_id : ℕ
  pub token_hash : String
  pub expires_at : ℕ
  pub used : Bool

-- app/models/device_token.py
pub data DevicePlatform : Type 0 where
  ios android web : DevicePlatform

pub record DeviceToken : Type 0 where
  pub id : ℕ
  pub created_at : ℕ
  pub user_id : ℕ
  pub token : String
  pub platform : DevicePlatform
  pub active : Bool

-- app/models/card.py
pub data CardType : Type 0 where
  debit credit : CardType

pub data CardStatus : Type 0 where
  active frozen cancelled : CardStatus

-- a calendar day
pub record Date : Type 0 where
  pub year : ℕ
  pub month : ℕ
  pub day : ℕ

pub record Card : Type 0 where
  pub id : ℕ
  pub created_at : ℕ
  pub account_id : ℕ
  pub last4 : String
  pub type : CardType
  pub status : CardStatus
  pub expires_at : Date

-- A float: a finite one is `coefficient * 10 ^ exponent`.
pub data Float : Type 0 where
  finite : ℤ → ℤ → Float
  infinity minus_infinity nan : Float

-- The values of the `metadata` of an audit entry, before they are printed. The texts under `text` and
-- `texts` are constants of the program or have been checked by it; `client` is what a caller sends
-- freely, as `json.dumps` prints it.
pub data Json : Type 0 where
  text : String → Json
  texts : List String → Json
  uuid : ℕ → Json
  cents : ℤ → Json
  -- a Decimal's coefficient and exponent
  decimal : ℤ → ℤ → Json
  ratio : ℕ → Json
  float : Float → Json
  client : String → Json

-- `request.client.host`: the text of the address of a connection, which the column of the audit log can
-- hold.
pub record Host : Type 0 where
  pub address : String
  pub fits : leb (length_text address) 45 ≡ true

-- app/models/audit_log.py
pub record AuditLog : Type 0 where
  pub id : ℕ
  pub created_at : ℕ
  pub user_id : Option ℕ
  pub action : String
  pub entity_type : Option String
  pub entity_id : Option ℕ
  pub ip_address : Option Host
  pub metadata : List (String × Json)
