-- ===== src/Session.antt =====
-- The database and a session on it (app/models/base.py, `get_db` of app/api/v1/deps.py), what the
-- program takes from outside, and the actions of a request: state passing with exceptions.
pub mod Rules
pub mod Quiet
use Prim.Native.Char.{Char}
use mathlib.Core.List.{Perm, Permᴰ}
use nexobank_backend.Base.{ℕ, ◌+◌, String, Bool, Option, none, some, List, if◌then◌else◌}
use nexobank_backend.Models.{
  User, Account, Transaction, RefreshToken, PasswordResetToken, DeviceToken, Card, AuditLog, Date,
}

-- `Settings` of app/core/config.py, as far as the services read it
pub record Settings : Type 0 where
  pub secret_key : String
  pub access_token_expire_minutes : ℕ
  pub refresh_token_expire_days : ℕ
  pub internal_api_key : String
  pub environment : String

-- the claims of an access token
pub record Claims : Type 0 where
  pub sub : Option String
  pub exp : ℕ
  pub iat : ℕ
  pub token_type : Option String

-- What the program calls and does not implement. The first argument of a generator is the number
-- of calls that the process made before, so that two calls may give two values.
pub record Env : Type 0 where
  pub settings : Settings
  -- uuid.uuid4, datetime.now in microseconds, date.today
  pub uuid4 : ℕ → ℕ
  pub now : ℕ → ℕ
  pub today : ℕ → Date
  -- secrets.token_urlsafe(n), and k of `random.choices(string.digits, k=k)`
  pub token_urlsafe : ℕ → ℕ → String
  pub random_digits : ℕ → ℕ → String
  -- hashlib.sha256 in hexadecimal; passlib's hash (salted by the call) and verify, and the passwords
  -- for which both raise a `PasswordSizeError`
  pub sha256_hex : String → String
  pub hash : ℕ → String → String
  pub verify : String → String → Bool
  pub is_oversized : String → Bool
  -- jose's jwt.encode, and jwt.decode at a moment: `none` is a `JWTError`
  pub jwt_encode : Claims → String → String
  pub jwt_decode : ℕ → String → String → Option Claims
  -- str(uuid.UUID) and uuid.UUID(str): `none` is a `ValueError`
  pub uuid_text : ℕ → String
  pub parse_uuid : String → Option ℕ
  -- the urlsafe base64 of a text, and back: `none` is an exception
  pub b64encode : String → String
  pub b64decode : String → Option String
  -- email-validator's check, which also normalises: `none` is a refusal
  pub validate_email : String → Option String
  -- the order of the rows that a SELECT without ORDER BY returns, which is the database's choice
  pub account_scan : ℕ → (rows : List Account) → (out : List Account) × Permᴰ out rows
  pub token_scan : ℕ → (rows : List DeviceToken) → (out : List DeviceToken) × Permᴰ out rows
  pub card_scan : ℕ → (rows : List Card) → (out : List Card) × Perm out rows
  -- whether a JSONB column of PostgreSQL takes a text (it refuses a NUL, for one)
  pub jsonb_accepts : String → Bool
  -- the characters of the class `\d` of `re`
  pub is_decimal : Char → Bool

pub record Db : Type 0 where
  pub users : List User
  pub accounts : List Account
  pub transactions : List Transaction
  pub refresh_tokens : List RefreshToken
  pub password_reset_tokens : List PasswordResetToken
  pub device_tokens : List DeviceToken
  pub cards : List Card
  pub audit_logs : List AuditLog

-- A session sees its own flushed writes in `db`; `committed` is what a rollback goes back to.
-- `calls` counts the calls of the generators.
pub record Session : Type 0 where
  pub db : Db
  pub committed : Db
  pub calls : ℕ

-- app/core/exceptions.py
pub data DomainError : Type 0 where
  account_not_found account_frozen insufficient_funds user_not_found invalid_credentials :
      DomainError
  card_not_found card_frozen unauthorized_resource duplicate_transaction : DomainError
  unsupported_currency : DomainError
  -- the root class `NexoBankError` itself
  nexobank_error : DomainError

-- What a request may raise: a domain error, a unique index that refuses a row, a value that its
-- column cannot hold, a `RuntimeError` (which also stands for the `InvalidOperation` of `quantize` and
-- the `PasswordSizeError` of passlib), or an `HTTPException` with its status.
pub data Error : Type 0 where
  domain : DomainError → Error
  integrity_error data_error runtime_error : Error
  http : ℕ → Error

pub data Result (A : Type 0) : Type 0 where
  ok : A → Result A
  err : Error → Result A

abbrev pub Action : Type 0 → Type 0
Action A = Session → Result A × Session

module _ {A : Type 0} where
  abbrev pub pure : A → Action A
  pure a s = (ok a, s)

  abbrev pub raise : Error → Action A
  raise e s = (err e, s)

  abbrev pub gets : (Db → A) → Action A
  gets f s = (ok (f s.db), s)

  -- the next value of a generator
  abbrev pub draw : (ℕ → A) → Action A
  draw g s = (ok (g s.calls), record s { calls = s.calls + 1 })

infixl 5 ◌>>=◌ ◌>>◌
abbrev pub ◌>>=◌ : {A B : Type 0} → Action A → (A → Action B) → Action B
◌>>=◌ m f s = let (r, s') = m s in elim r [ ok a ↦ f a s' | err e ↦ (err e, s') ]

abbrev pub ◌>>◌ : {A B : Type 0} → Action A → Action B → Action B
m >> k = m >>= λ _. k

-- `if test: raise error`
abbrev pub raise_if : Bool → Error → Action (Unit {0})
raise_if test e s = (if test then err e else ok tt, s)

abbrev pub modify : (Db → Db) → Action (Unit {0})
modify f s = (ok tt, record s { db = f s.db })

-- `if value is None: raise error`
abbrev pub or_raise : {A : Type 0} → Option A → Error → Action A
or_raise none e = raise e
or_raise (some a) e = pure a

-- `await db.commit()`
abbrev pub commit : Action (Unit {0})
commit s = (ok tt, record s { committed = s.db })

-- A request on its own session: what was not committed when it ends or raises is rolled back.
unfoldable pub with_session : {A : Type 0} → Action A → Db → ℕ → Result A × Db × ℕ
with_session m db calls =
    let (r, s) = m (record { db = db; committed = db; calls = calls }) in (r, s.committed, s.calls)
