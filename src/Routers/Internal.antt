-- ===== src/Routers/Internal.antt =====
-- app/api/v1/routers/internal.py: the endpoints for the coach and the fraud engine, behind the
-- internal key.
use nexobank_backend.Base.{
  ℕ, ◌+◌, ◌^◌, ℤ, pos, negsuc, pos_part, neg_part, ◌+ℤ◌, leb_ℤ, String, Bool, true, false, Option,
  none, some, List, [], ◌∷◌, if◌then◌else◌,
}
use nexobank_backend.Base.Dict.{Dict, get, get_or, set_key}
use nexobank_backend.Models.{
  Float, finite, infinity, minus_infinity, nan, UserStatus, Account, AccountStatus, AccountType,
  Json,
}
use nexobank_backend.Money.{Decimal, scale}
use nexobank_backend.Session.{
  Env, domain, user_not_found, Action, pure, or_raise, commit, ◌>>=◌, ◌>>◌,
}
use nexobank_backend.Dependencies.{verify_internal_api_key}
use nexobank_backend.Repositories.Users
use nexobank_backend.Repositories.Accounts
use nexobank_backend.Repositories.AuditLogs
use nexobank_backend.Schemas.{map}

-- an entry of the list `accounts`
pub record AccountEntry : Type 0 where
  pub id : ℕ
  pub account_number : String
  pub currency : String
  pub balance : ℤ
  pub status : AccountStatus
  pub type : AccountType

abbrev pub entry_of : Account → AccountEntry
entry_of a = record {
  id = a.id;
  account_number = a.account_number;
  currency = a.currency;
  balance = a.balance;
  status = a.status;
  type = a.type;
}

-- the loop over the accounts
unfoldable pub add_balances : Dict ℤ → List Account → Dict ℤ
add_balances totals [] = totals
add_balances totals (a ∷ rows) =
    add_balances (set_key a.currency (get_or (pos 0) (get a.currency totals) +ℤ a.balance) totals)
      rows

pub record UserContextResponse : Type 0 where
  pub user_id : ℕ
  pub full_name : String
  pub email : String
  pub status : UserStatus
  pub accounts : List AccountEntry
  pub total_balance_by_currency : Dict ℤ

pub record RiskEventRequest : Type 0 where
  pub user_id : ℕ
  pub transaction_id : Option ℕ
  pub event_type : String
  pub risk_score : Float
  pub metadata : Dict Json

pub record RiskEventResponse : Type 0 where
  pub received : Bool
  pub action_taken : String

-- `a >= b` of a float and a finite one; NaN is on no side
unfoldable pub at_least : Float → Decimal → Bool
unfolding scale
at_least (finite coefficient exponent) b =
    leb_ℤ (scale (10 ^ (pos_part b.exponent + neg_part exponent)) b.coefficient)
      (scale (10 ^ (pos_part exponent + neg_part b.exponent)) coefficient)
at_least infinity b = true
at_least minus_infinity b = false
at_least nan b = false

-- the floats 0.8 and 0.5, exactly
abbrev pub high : Decimal
high = record {
  coefficient = pos 8000000000000000444089209850062616169452667236328125;
  exponent = negsuc 51;
}

abbrev pub medium : Decimal
medium = record { coefficient = pos 5; exponent = negsuc 0 }

-- `{**base, **extra}`
unfoldable pub merge : Dict Json → Dict Json → Dict Json
merge base [] = base
merge base ((k, v) ∷ extra) = merge (set_key k v base) extra

-- `"transaction" if body.transaction_id else "user"`
abbrev pub entity_of : Option ℕ → String
entity_of none = "user"
entity_of (some id) = "transaction"

abbrev pub score_entries : RiskEventRequest → Dict Json
score_entries body =
    ("event_type", Json.client body.event_type) ∷ ("risk_score", Json.float body.risk_score) ∷ []

module _ (env : Env) where
  -- `get_user_context`
  unfoldable pub get_user_context : String → ℕ → Action UserContextResponse
  get_user_context api_key user_id = do
    verify_internal_api_key env api_key
    found ← Users.get_by_id user_id
    user ← or_raise found (domain user_not_found)
    rows ← Accounts.get_by_user_id env user_id
    pure (record {
      user_id = user.id;
      full_name = user.full_name;
      email = user.email;
      status = user.status;
      accounts = map entry_of rows;
      total_balance_by_currency = add_balances [] rows;
    })

  -- the three branches of `receive_risk_event`
  unfoldable pub block_event : RiskEventRequest → Action String
  block_event body = do
    AuditLogs.log env "HIGH_RISK_EVENT" (some body.user_id) (some (entity_of body.transaction_id))
        body.transaction_id none (merge (score_entries body) body.metadata)
    commit
    pure "blocked"

  unfoldable pub flag_event : RiskEventRequest → Action String
  flag_event body = do
    AuditLogs.log env "MEDIUM_RISK_EVENT" (some body.user_id) none none none (score_entries body)
    commit
    pure "flagged"

  unfoldable pub act_on : RiskEventRequest → Action String
  act_on body =
      if at_least body.risk_score high
      then block_event body
      else if at_least body.risk_score medium
      then flag_event body
      else pure "monitoring"

  -- `receive_risk_event`
  unfoldable pub receive_risk_event : String → RiskEventRequest → Action RiskEventResponse
  receive_risk_event api_key body = do
    verify_internal_api_key env api_key
    action ← act_on body
    pure (record { received = true; action_taken = action })
