-- ===== src/Examples/Owning.antt =====
-- Cards and push tokens on the small bank.
use mathlib.Core.List.{Perm}
use nexobank_backend.Base.{
  ℕ, ◌≡◌, ◌≢◌, refl, true, false, none, some, List, ◌∷◌, arith, select_one, has_row,
}
use nexobank_backend.Models.{
  Account, AccountStatus, Card, CardType, CardStatus, DeviceToken, DevicePlatform,
}
use nexobank_backend.Session.{Session, ok, err, domain, unauthorized_resource}
use nexobank_backend.Repositories.Accounts
use nexobank_backend.Repositories.Cards
use nexobank_backend.Repositories.Devices
use nexobank_backend.Cards.{
  days_in_month, compute_expiry, create_card, set_card_frozen, get_account_cards,
}
use nexobank_backend.Cards.Expiry.{IsDate}
use nexobank_backend.Cards.Freezing.{set_card_frozen_sets}
use nexobank_backend.Cards.Issuing.{create_card_listed}
use nexobank_backend.Devices.{register_device_token, remove_device_token}
use nexobank_backend.Devices.Registering.{pushes, register_device_token_takes_over}
use nexobank_backend.Repositories.AuditLogs
use nexobank_backend.Devices.{remove_found}
use nexobank_backend.Scenario.{env, start, bank, card, device_token, leap_day}

leap_day-IsDate : IsDate leap_day
unfolding days_in_month
leap_day-IsDate = record {
  month_low = omega arith;
  month_high = omega arith;
  day_low = omega arith;
  day_high = omega arith;
}

-- unfreezing the cancelled card
abbrev unfrozen : Card
unfrozen = record card { status = CardStatus.active }

abbrev after_unfreeze : Session
after_unfreeze = (set_card_frozen env 70 false 1 none start).1

unfreeze_returned : set_card_frozen env 70 false 1 none start ≡ (ok unfrozen, after_unfreeze)
unfolding set_card_frozen Cards.get_by_id Accounts.get_by_id Cards.update_status AuditLogs.log
unfreeze_returned = refl

set_card_frozen_sets_example :
    (c : Card) × (a : Account) × (select_one (Cards.has_id 70) bank.cards ≡ some c)
    × (select_one (Accounts.has_id c.account_id) bank.accounts ≡ some a)
    × (a.user_id ≡ 1)
    × (unfrozen ≡ Cards.set_status CardStatus.active c)
    × (select_one (Cards.has_id 70) after_unfreeze.db.cards ≡ some unfrozen)
    × ((k : ℕ)
        → k ≢ 70
        → select_one (Cards.has_id k) after_unfreeze.db.cards
          ≡ select_one (Cards.has_id k) bank.cards)
set_card_frozen_sets_example =
    set_card_frozen_sets env 70 false 1 none start unfrozen after_unfreeze unfreeze_returned

-- Ben may not
freeze_refused :
    set_card_frozen env 70 true 2 none start ≡ (err (domain unauthorized_resource), start)
unfolding set_card_frozen Cards.get_by_id Accounts.get_by_id
freeze_refused = refl

abbrev issued : Card
issued = record {
  id = 102;
  created_at = 1003;
  account_id = 10;
  last4 = "1234";
  type = CardType.credit;
  status = CardStatus.active;
  expires_at = record { year = 2027; month = 2; day = 28 };
}

abbrev after_issue : Session
after_issue = (create_card env 10 1 CardType.credit start).1

issue_returned : create_card env 10 1 CardType.credit start ≡ (ok issued, after_issue)
unfolding create_card Accounts.get_by_id Cards.create Cards.flush_row AuditLogs.log compute_expiry
    days_in_month
issue_returned = refl

create_card_listed_example :
    (a : Account) × (before after : List Card) × (select_one (Accounts.has_id 10) bank.accounts
      ≡ some a)
    × (a.user_id ≡ 1)
    × (a.status ≡ AccountStatus.active)
    × (issued.type ≡ CardType.credit)
    × (issued.status ≡ CardStatus.active)
    × ((n : ℕ) × (issued.expires_at ≡ compute_expiry (env.today n)))
    × (get_account_cards env 10 1 start ≡ (ok before, start))
    × (get_account_cards env 10 1 after_issue ≡ (ok after, after_issue))
    × Perm after (issued ∷ before)
create_card_listed_example =
    create_card_listed env 10 1 CardType.credit start issued after_issue issue_returned

-- Ben's phone has Ana's old push token
abbrev moved : DeviceToken
moved = record device_token { user_id = 2; platform = DevicePlatform.android }

abbrev after_move : Session
after_move = (register_device_token env 2 "push" DevicePlatform.android none start).1

move_returned :
    register_device_token env 2 "push" DevicePlatform.android none start ≡ (ok moved, after_move)
unfolding register_device_token Devices.upsert Devices.reactivate AuditLogs.log
move_returned = refl

register_device_token_takes_over_example :
    (select_one (Devices.has_token "push") after_move.db.device_tokens ≡ some moved)
    × (moved.user_id ≡ 2)
    × (moved.platform ≡ DevicePlatform.android)
    × (moved.active ≡ true)
    × ((other : ℕ) → other ≢ 2 → has_row (pushes "push" other) after_move.db.device_tokens ≡ false)
    × (after_move.committed ≡ after_move.db)
register_device_token_takes_over_example =
    register_device_token_takes_over env 2 "push" DevicePlatform.android none start moved after_move
      (refl, tt) move_returned

abbrev after_removal : Session
after_removal = (remove_device_token env 60 1 none start).1

removal_returned : remove_device_token env 60 1 none start ≡ (ok tt, after_removal)
unfolding remove_device_token Devices.get_by_id remove_found Devices.deactivate AuditLogs.log
removal_returned = refl

removal_refused :
    remove_device_token env 60 2 none start ≡ (err (domain unauthorized_resource), start)
unfolding remove_device_token Devices.get_by_id remove_found
removal_refused = refl
