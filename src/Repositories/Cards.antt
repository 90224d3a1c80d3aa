-- ===== src/Repositories/Cards.antt =====
-- app/repositories/card_repository.py
use nexobank_backend.Base.{
  ℕ, String, Bool, Option, List, [], ◌∷◌, ◌++◌, ◌==◌, select_one, select_all, update_where, has_row,
  if◌then◌else◌,
}
use nexobank_backend.Models.{Card, CardType, CardStatus, Date}
use nexobank_backend.Session.{Env, integrity_error, Action, ok, err, draw, gets, ◌>>=◌}

abbrev pub has_id : ℕ → Card → Bool
has_id k c = c.id == k

-- `get_by_id`
unfoldable pub get_by_id : ℕ → Action (Option Card)
get_by_id card_id = gets (λ db. select_one (has_id card_id) db.cards)

-- `get_by_account_id`
unfoldable pub get_by_account_id : Env → ℕ → Action (List Card)
get_by_account_id env account_id s =
    (ok (env.card_scan s.calls (select_all (λ c. c.account_id == account_id) s.db.cards)).0, s)

-- `db.add(card); await db.flush()`
unfoldable pub flush_row : Card → Action Card
flush_row c s =
    if has_row (has_id c.id) s.db.cards
    then (err integrity_error, s)
    else (ok c, record s { db = record s.db { cards = s.db.cards ++ c ∷ [] } })

-- `create`
unfoldable pub create : Env → ℕ → String → CardType → Date → Action Card
create env account_id last4 type expires_at = do
  id ← draw env.uuid4
  created_at ← draw env.now
  flush_row (record {
    id = id;
    created_at = created_at;
    account_id = account_id;
    last4 = last4;
    type = type;
    status = CardStatus.active;
    expires_at = expires_at;
  })

abbrev pub set_status : CardStatus → Card → Card
set_status status c = record c { status = status }

-- `update_status`
unfoldable pub update_status : Card → CardStatus → Action Card
update_status card status s = (
  ok (set_status status card),
  record s {
    db = record s.db { cards = update_where (has_id card.id) (set_status status) s.db.cards };
  },
)
