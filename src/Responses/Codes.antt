-- ===== src/Responses/Codes.antt =====
-- The error codes tell the domain errors apart.
use mathlib.Core.Path.{sym, ap}
use nexobank_backend.Base.{
  ℕ, ◌≤◌, ◌<◌, ◌≡◌, refl, ◌∙◌, String, Option, arith, str_eq, if◌then◌else◌,
}
use nexobank_backend.Session.{
  Env, DomainError, account_not_found, account_frozen, insufficient_funds, user_not_found,
  invalid_credentials, card_not_found, card_frozen, unauthorized_resource, duplicate_transaction,
  unsupported_currency, nexobank_error,
}
use nexobank_backend.Responses.{exception_map, nexobank_exception_handler}

-- an error for each code
error_of : String → DomainError
error_of code =
    if str_eq code "INSUFFICIENT_FUNDS"
    then insufficient_funds
    else if str_eq code "ACCOUNT_NOT_FOUND"
    then account_not_found
    else if str_eq code "USER_NOT_FOUND"
    then user_not_found
    else if str_eq code "CARD_NOT_FOUND"
    then card_not_found
    else if str_eq code "UNAUTHORIZED_RESOURCE"
    then unauthorized_resource
    else if str_eq code "DUPLICATE_TRANSACTION"
    then duplicate_transaction
    else if str_eq code "INVALID_CREDENTIALS"
    then invalid_credentials
    else if str_eq code "ACCOUNT_FROZEN"
    then account_frozen
    else if str_eq code "CARD_FROZEN"
    then card_frozen
    else if str_eq code "UNSUPPORTED_CURRENCY"
    then unsupported_currency
    else nexobank_error

module _ (env : Env) (header : Option String) (calls : ℕ) where
  error_of_response :
      (e : DomainError) (m : String)
      → error_of (nexobank_exception_handler env header calls e m).content.error_code ≡ e
  unfolding nexobank_exception_handler exception_map error_of
  error_of_response insufficient_funds m = refl
  error_of_response account_not_found m = refl
  error_of_response user_not_found m = refl
  error_of_response card_not_found m = refl
  error_of_response unauthorized_resource m = refl
  error_of_response duplicate_transaction m = refl
  error_of_response invalid_credentials m = refl
  error_of_response account_frozen m = refl
  error_of_response card_frozen m = refl
  error_of_response unsupported_currency m = refl
  error_of_response nexobank_error m = refl

  answered_as_failure :
      (e : DomainError) (m : String)
      → (400 ≤ (nexobank_exception_handler env header calls e m).status_code)
        × ((nexobank_exception_handler env header calls e m).status_code < 600)
  unfolding nexobank_exception_handler exception_map
  answered_as_failure e m = ground arith

  -- Every domain error is answered with a status between 400 and 599, and two errors that are answered
  -- with the same error code are the same error.
  pub nexobank_exception_handler_distinguishes :
      (e e' : DomainError) (m m' : String)
      → (nexobank_exception_handler env header calls e m).content.error_code
        ≡ (nexobank_exception_handler env header calls e' m').content.error_code
      → (e ≡ e')
        × (400 ≤ (nexobank_exception_handler env header calls e m).status_code)
        × ((nexobank_exception_handler env header calls e m).status_code < 600)
  nexobank_exception_handler_distinguishes e e' m m' same = (
    sym (error_of_response e m) ∙ ap error_of same ∙ error_of_response e' m',
    (answered_as_failure e m).0,
    (answered_as_failure e m).1,
  )
