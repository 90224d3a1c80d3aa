-- ===== src/Cards.antt =====
-- app/services/card_service.py
pub mod Expiry
pub mod Freezing
pub mod Issuing
use nexobank_backend.Models.{Host}
use nexobank_backend.Base.{
  ℕ, ◌+◌, ◌%◌, String, Bool, ◌&&◌, ◌||◌, not, ◌==◌, leb, Option, none, some, List, [], ◌∷◌, true,
  false, if◌then◌else◌,
}
use nexobank_backend.Models.{Account, AccountStatus, Card, CardType, CardStatus, Date, Json}
use nexobank_backend.Session.{
  Env, domain, account_not_found, account_frozen, card_not_found, unauthorized_resource, Action,
  draw, pure, raise, raise_if, or_raise, ◌>>=◌, ◌>>◌,
}
use nexobank_backend.Repositories.Accounts
use nexobank_backend.Repositories.Cards
use nexobank_backend.Repositories.AuditLogs

-- `calendar.isleap` and `calendar.monthrange(year, month)[1]`
abbrev pub is_leap : ℕ → Bool
is_leap year = year % 4 == 0 && (not (year % 100 == 0) || year % 400 == 0)

unfoldable pub days_in_month : ℕ → ℕ → ℕ
days_in_month year month =
    if month == 2
    then (if is_leap year then 29 else 28)
    else if month == 4 || month == 6 || month == 9 || month == 11
    then 30
    else 31

-- `_compute_expiry`
unfoldable pub compute_expiry : Date → Date
compute_expiry issued = record {
  year = issued.year + 3;
  month = issued.month;
  day = days_in_month (issued.year + 3) issued.month;
}

abbrev pub is_frozen_or_closed : AccountStatus → Bool
is_frozen_or_closed AccountStatus.active = false
is_frozen_or_closed AccountStatus.frozen = true
is_frozen_or_closed AccountStatus.closed = true

-- `CardType.value` and `CardStatus.value`
abbrev pub type_value : CardType → String
type_value CardType.debit = "debit"
type_value CardType.credit = "credit"

abbrev pub status_value : CardStatus → String
status_value CardStatus.active = "active"
status_value CardStatus.frozen = "frozen"
status_value CardStatus.cancelled = "cancelled"

-- `account is None or account.user_id != requesting_user_id`
abbrev pub is_not_owned : Option Account → ℕ → Bool
is_not_owned none user_id = true
is_not_owned (some account) user_id = not (account.user_id == user_id)

module _ (env : Env) where
  -- `create_card`
  unfoldable pub create_card : ℕ → ℕ → CardType → Action Card
  create_card account_id requesting_user_id card_type = do
    found ← Accounts.get_by_id account_id
    account ← or_raise found (domain account_not_found)
    raise_if (not (account.user_id == requesting_user_id)) (domain unauthorized_resource)
    raise_if (is_frozen_or_closed account.status) (domain account_frozen)
    last4 ← draw (λ n. env.random_digits n 4)
    today ← draw env.today
    card ← Cards.create env account_id last4 card_type (compute_expiry today)
    AuditLogs.log env "CARD_CREATED" (some requesting_user_id) (some "card") (some card.id) none
        (("last4", Json.text card.last4) ∷ ("type", Json.text (type_value card_type)) ∷ [])
    pure card

  -- `set_card_frozen`
  unfoldable pub set_card_frozen : ℕ → Bool → ℕ → Option Host → Action Card
  set_card_frozen card_id frozen requesting_user_id ip_address = do
    found ← Cards.get_by_id card_id
    card ← or_raise found (domain card_not_found)
    account ← Accounts.get_by_id card.account_id
    raise_if (is_not_owned account requesting_user_id) (domain unauthorized_resource)
    updated ← Cards.update_status card (if frozen then CardStatus.frozen else CardStatus.active)
    AuditLogs.log env (if frozen then "CARD_FROZEN" else "CARD_UNFROZEN") (some requesting_user_id)
        (some "card") (some updated.id) ip_address
        (("last4", Json.text updated.last4)
          ∷ (
            "new_status",
            Json.text (status_value (if frozen then CardStatus.frozen else CardStatus.active)),
          )
          ∷ [])
    pure updated

-- `get_account_cards`
unfoldable pub get_account_cards : Env → ℕ → ℕ → Action (List Card)
get_account_cards env account_id requesting_user_id = do
  found ← Accounts.get_by_id account_id
  account ← or_raise found (domain account_not_found)
  raise_if (not (account.user_id == requesting_user_id)) (domain unauthorized_resource)
  Cards.get_by_account_id env account_id
