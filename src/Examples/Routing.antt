-- ===== src/Examples/Routing.antt =====
-- Requests to the routes on the small bank.
use text.Mathlib.TextPositions.{eq_refl}
use mathlib.Core.List.{Permᴰ}
use nexobank_backend.Base.{
  str_eq, ◌+◌, ◌≡◌, ◌≤ℤ◌, ◌==◌, refl, pos, negsuc, String, true, false, none, some, List, [], ◌∷◌,
  select_one, select_all, has_row, if◌then◌else◌,
}
use nexobank_backend.Models.{User, Account, is_active}
use nexobank_backend.Money.{Decimal, scale, numerator, denominator}
use nexobank_backend.Session.{
  Session, DomainError, ok, err, domain, insufficient_funds, with_session,
}
use nexobank_backend.Dependencies.Guarding.{Names}
use nexobank_backend.Ledger.{total}
use nexobank_backend.Repositories.Users.{has_id}
use nexobank_backend.Schemas.{validate_amount, map, account_response, TransferRequest}
use nexobank_backend.Schemas.Amounts.{validate_amount_exact}
use nexobank_backend.Requests.{create_transfer}
use nexobank_backend.Routers.Reading.{my_accounts, View, accounts, read}
use nexobank_backend.Routers.Views.{OwnView, read-OwnView}
use nexobank_backend.Routers.Auth.{register, token_response}
use nexobank_backend.Routers.Joining.{Fresh, LogsIn, register_then_login}
use nexobank_backend.Routers.Internal.{
  get_user_context, UserContextResponse, RiskEventRequest, entry_of, high,
}
use nexobank_backend.Routers.Totals.{in_currency, get_user_context_totals}
use nexobank_backend.Models.{Float}
use nexobank_backend.Responses.{inject_request_id, refused, ErrorResponse}
use nexobank_backend.Responses.Tracing.{Traced, inject_request_id_traces}
use nexobank_backend.Examples.Admitting.{signed}
use nexobank_backend.Examples.Moving.{too_much}
use nexobank_backend.Schemas.{quantized}
use nexobank_backend.Dependencies.{get_current_active_user}
use nexobank_backend.Dependencies.{get_current_user}
use nexobank_backend.Security.{decode_access_token}
use nexobank_backend.Repositories.Users
use nexobank_backend.Routers.Reading.{read_for}
use nexobank_backend.Accounts.{get_user_accounts}
use nexobank_backend.Repositories.Accounts
use nexobank_backend.Schemas.{email_str}
use nexobank_backend.Schemas.{password_strength}
use nexobank_backend.Auth.{register_user}
use nexobank_backend.Security.{hash_password}
use nexobank_backend.Auth.{issue_tokens}
use nexobank_backend.Security.{create_refresh_token}
use nexobank_backend.Repositories.RefreshTokens
use nexobank_backend.Security.{create_access_token}
use nexobank_backend.Repositories.AuditLogs
use nexobank_backend.Dependencies.{verify_internal_api_key}
use nexobank_backend.Routers.Internal.{add_balances}
use nexobank_backend.Base.Dict.{get, set_key}
use nexobank_backend.Base.{◌+ℤ◌}
use nexobank_backend.Transfers.{execute_transfer}
use nexobank_backend.Repositories.Transactions
use nexobank_backend.Transfers.{execute_new}
use nexobank_backend.Transfers.{validate_inputs}
use nexobank_backend.Transfers.{is_supported}
use nexobank_backend.Base.{upper}
use nexobank_backend.Transfers.{check_owner}
use nexobank_backend.Transfers.{validate_account_owner}
use nexobank_backend.Transfers.{lock_accounts_for_update}
use nexobank_backend.Transfers.{check_rules}
use nexobank_backend.Transfers.{validate_account_active}
use nexobank_backend.Routers.Reading.{list_accounts}
use nexobank_backend.Scenario.{env, bank, start, ana, source, tally}

-- 12.3
abbrev twelve : Decimal
twelve = record { coefficient = pos 123; exponent = negsuc 0 }

twelve_passes : validate_amount twelve start ≡ (ok (pos 1230), start)
unfolding validate_amount quantized
twelve_passes = refl

validate_amount_exact_example :
    (pos 1 ≤ℤ pos 1230)
    × (scale (denominator twelve) (pos 1230) ≡ numerator twelve)
    × (start ≡ start)
validate_amount_exact_example = validate_amount_exact twelve start twelve_passes

-- Ana's accounts
abbrev hers : View
hers = accounts (record { items = account_response source ∷ []; total = 1 })

ana_reads : read signed "jwt" my_accounts start ≡ (ok hers, record start { calls = 1 })
unfolding read get_current_active_user get_current_user decode_access_token Users.get_by_id tally
    is_active read_for get_user_accounts Accounts.get_by_user_id list_accounts
ana_reads = refl

read-OwnView_example :
    (user : User) × Names signed "jwt" start user
    × (is_active user ≡ true)
    × OwnView bank user my_accounts hers
    × (record start { calls = 1 } ≡ record start { calls = start.calls + 1 })
read-OwnView_example = read-OwnView signed "jwt" my_accounts start ana_reads

-- a new customer
abbrev joined : Session
joined = (register env "cal@example.com" "password1" "Cal" none none start).1

cal_registers :
    register env "cal@example.com" "password1" "Cal" none none start
    ≡ (ok (token_response "jwt" "new token"), joined)
unfolding register email_str password_strength register_user Users.get_by_email hash_password
    Users.create Users.flush_row issue_tokens create_refresh_token RefreshTokens.create
    RefreshTokens.flush_row create_access_token AuditLogs.log
cal_registers = refl

no_id : has_row (λ t. t.id == env.uuid4 (joined.calls + 1 + 1)) joined.db.refresh_tokens ≡ false
unfolding register email_str password_strength register_user Users.get_by_email hash_password
    Users.create Users.flush_row issue_tokens create_refresh_token RefreshTokens.create
    RefreshTokens.flush_row create_access_token AuditLogs.log
no_id = refl

no_hash :
    has_row
      (λ t. str_eq t.token_hash (env.sha256_hex (env.token_urlsafe joined.calls 64)))
      joined.db.refresh_tokens
    ≡ false
unfolding register email_str password_strength register_user Users.get_by_email hash_password
    Users.create Users.flush_row issue_tokens create_refresh_token RefreshTokens.create
    RefreshTokens.flush_row create_access_token AuditLogs.log
no_hash = refl

joined-Fresh : Fresh env joined
joined-Fresh = record { id = no_id; hash = no_hash }

register_then_login_example : LogsIn env "cal@example.com" "password1" none joined
register_then_login_example =
    register_then_login env (λ n password. eq_refl password) "cal@example.com" "password1" "Cal"
      none none start cal_registers joined-Fresh

-- what the coach sees of Ana
abbrev context : UserContextResponse
context = record {
  user_id = 1;
  full_name = "Ana";
  email = "ana@example.com";
  status = ana.status;
  accounts = entry_of source ∷ [];
  total_balance_by_currency = ("MXN", pos 5000) ∷ [];
}

context_read : get_user_context env "internal" 1 start ≡ (ok context, start)
unfolding get_user_context verify_internal_api_key Users.get_by_id Accounts.get_by_user_id
    add_balances set_key ◌+ℤ◌
context_read = refl

abbrev ana_accounts : List Account
ana_accounts = select_all (λ a. a.user_id == 1) bank.accounts

get_user_context_totals_example :
    ("internal" ≡ env.settings.internal_api_key)
    × ((user : User) × (select_one (has_id 1) bank.users ≡ some user) × (context.user_id ≡ user.id))
    × ((rows : List Account) × Permᴰ rows ana_accounts × (context.accounts ≡ map entry_of rows))
    × (get "MXN" context.total_balance_by_currency ≡ (
        if has_row (in_currency "MXN") ana_accounts then some (total "MXN" ana_accounts) else none))
    × (start ≡ start)
get_user_context_totals_example = get_user_context_totals env "internal" 1 start "MXN" context_read

abbrev risk : RiskEventRequest
risk = record {
  user_id = 1;
  transaction_id = none;
  event_type = "velocity_check";
  risk_score = Float.finite high.coefficient high.exponent;
  metadata = [];
}

-- an overdraft without a request id
abbrev silent : DomainError → String
silent e = ""

overdraft_raises :
    (with_session (create_transfer env too_much) bank (0 + 1)).0 ≡ err (domain insufficient_funds)
unfolding with_session create_transfer execute_transfer Transactions.get_by_idempotency_key
    execute_new validate_inputs is_supported upper check_owner Accounts.get_by_id
    validate_account_owner lock_accounts_for_update check_rules validate_account_active
overdraft_raises = refl

inject_request_id_traces_example :
    (response : ErrorResponse) × (id : String) × ((inject_request_id env none silent 201
        (create_transfer env too_much)
        bank
        0).0
      ≡ record { reply = refused response; request_id = some id })
    × Traced env none silent 201
        (create_transfer env too_much)
        bank
        0
        id
        response.content.request_id
inject_request_id_traces_example =
    inject_request_id_traces env none silent 201 (create_transfer env too_much) bank 0
      insufficient_funds overdraft_raises

abbrev body : TransferRequest
body = record {
  from_account_id = 10;
  to_account_id = 20;
  amount = twelve;
  currency = "mxn";
  idempotency_key = "key";
  description = none;
}
