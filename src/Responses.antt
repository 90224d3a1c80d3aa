-- ===== src/Responses.antt =====
-- app/core/exception_handlers.py and the request-id middleware of app/main.py: from the result of a
-- route to the response.
pub mod Codes
pub mod Tracing
use nexobank_backend.Base.{
  ℕ, ◌+◌, String, Bool, true, false, Option, none, some, str_eq, if◌then◌else◌,
}
use nexobank_backend.Session.{
  Env, Settings, Db, DomainError, account_not_found, account_frozen, insufficient_funds,
  user_not_found, invalid_credentials, card_not_found, card_frozen, unauthorized_resource,
  duplicate_transaction, unsupported_currency, nexobank_error, Error, domain, integrity_error,
  data_error, runtime_error, http, Result, ok, err, Action, with_session,
}
use nexobank_backend.Security.{is_production}

-- a row of `_EXCEPTION_MAP`: the status, the error code and the default message
abbrev pub Mapping : Type 0
Mapping = ℕ × String × String

-- `_EXCEPTION_MAP.get`
unfoldable pub exception_map : DomainError → Option Mapping
exception_map insufficient_funds = some (
  422, "INSUFFICIENT_FUNDS", "The account does not have enough balance to complete the operation.",
)
exception_map account_not_found =
    some (404, "ACCOUNT_NOT_FOUND", "The requested account was not found.")
exception_map user_not_found = some (404, "USER_NOT_FOUND", "The requested user was not found.")
exception_map card_not_found = some (404, "CARD_NOT_FOUND", "The requested card was not found.")
exception_map unauthorized_resource =
    some (403, "UNAUTHORIZED_RESOURCE", "You do not have permission to access this resource.")
exception_map duplicate_transaction =
    some (409, "DUPLICATE_TRANSACTION", "A transaction with this idempotency key already exists.")
exception_map invalid_credentials =
    some (401, "INVALID_CREDENTIALS", "The provided credentials are invalid.")
exception_map account_frozen =
    some (422, "ACCOUNT_FROZEN", "This account is frozen and cannot process transactions.")
exception_map card_frozen = some (422, "CARD_FROZEN", "This card is frozen and cannot be used.")
exception_map unsupported_currency =
    some (422, "UNSUPPORTED_CURRENCY", "The requested currency is not supported.")
exception_map nexobank_error = none

-- the content of `_error_response`
pub record ErrorBody : Type 0 where
  pub error_code : String
  pub message : String
  pub request_id : String

pub record ErrorResponse : Type 0 where
  pub status_code : ℕ
  pub content : ErrorBody

-- `value or default` for a text that may be missing
unfoldable pub text_or : Option String → String → String
text_or none default = default
text_or (some v) default = if str_eq v "" then default else v

abbrev pub error_response : ℕ → String → String → String → ErrorResponse
error_response status_code error_code message request_id = record {
  status_code = status_code;
  content = record { error_code = error_code; message = message; request_id = request_id };
}

module _ (env : Env) where
  -- `_get_request_id`, and the same line of `inject_request_id`: the header of the request, or a new
  -- UUID
  unfoldable pub get_request_id : Option String → ℕ → String
  get_request_id header calls = text_or header (env.uuid_text (env.uuid4 calls))

  -- `nexobank_exception_handler`, for an exception with a message
  unfoldable pub nexobank_exception_handler :
      Option String → ℕ → DomainError → String → ErrorResponse
  nexobank_exception_handler header calls e message = elim (exception_map e) [
    | none ↦
        error_response 500 "INTERNAL_ERROR" "An unexpected error occurred."
          (get_request_id header calls)
    | some (status, error_code, default_message) ↦
        error_response status error_code (text_or (some message) default_message)
          (get_request_id header calls)
  ]

-- What a client gets: the route's model, the envelope above, the body of an `HTTPException`, or the
-- answer of the server to an exception that nothing handles.
pub data Reply (A : Type 0) : Type 0 where
  success : ℕ → A → Reply A
  refused : ErrorResponse → Reply A
  http_error : ℕ → Reply A
  server_error : Reply A

-- A reply with the header `X-Request-ID` that the middleware adds; an unhandled exception passes it by.
pub record Response (A : Type 0) : Type 0 where
  pub reply : Reply A
  pub request_id : Option String

module _ {A : Type 0} (env : Env) (header : Option String) (message : DomainError → String) where
  -- the handlers
  abbrev pub handle : ℕ → Result A → ℕ → String → Response A
  handle status (ok a) calls id = record { reply = success status a; request_id = some id }
  handle status (err (domain e)) calls id = record {
    reply = refused (nexobank_exception_handler env header calls e (message e));
    request_id = some id;
  }
  handle status (err (http n)) calls id = record { reply = http_error n; request_id = some id }
  handle status (err integrity_error) calls id = record { reply = server_error; request_id = none }
  handle status (err data_error) calls id = record { reply = server_error; request_id = none }
  handle status (err runtime_error) calls id = record { reply = server_error; request_id = none }

  -- A request through `inject_request_id`, with the status of the route: the response, and what is
  -- stored. The middleware draws its id before the route runs, the handler after.
  unfoldable pub inject_request_id : ℕ → Action A → Db → ℕ → Response A × Db
  inject_request_id status route db calls =
      let (r, stored, later) = with_session route db (calls + 1) in
      (handle status r later (get_request_id env header calls), stored)

-- `health` and the addresses of the documentation, of `create_app`
unfoldable pub health : Settings → String × String
health settings = ("ok", settings.environment)

unfoldable pub docs_url : Settings → Option String
docs_url settings = if is_production settings then none else some "/docs"

unfoldable pub redoc_url : Settings → Option String
redoc_url settings = if is_production settings then none else some "/redoc"

unfoldable pub openapi_url : Settings → Option String
openapi_url settings = if is_production settings then none else some "/openapi.json"
