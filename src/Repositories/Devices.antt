-- ===== src/Repositories/Devices.antt =====
-- app/repositories/device_token_repository.py
use nexobank_backend.Base.{
  ℕ, String, Bool, true, false, ◌&&◌, ◌||◌, Option, none, some, List, [], ◌∷◌, ◌++◌, ◌==◌, str_eq,
  select_one, select_all, update_where, has_row, if◌then◌else◌,
}
use nexobank_backend.Models.{DeviceToken, DevicePlatform}
use nexobank_backend.Session.{Env, integrity_error, Action, ok, err, draw, gets, ◌>>=◌}
use nexobank_backend.Repositories.RefreshTokens.{row_count}

abbrev pub has_id : ℕ → DeviceToken → Bool
has_id k d = d.id == k

abbrev pub has_token : String → DeviceToken → Bool
has_token token d = str_eq d.token token

-- the assignments to a token that is there
abbrev pub reassign : ℕ → DevicePlatform → DeviceToken → DeviceToken
reassign user_id platform d = record d { user_id = user_id; platform = platform; active = true }

-- `db.add(device_token); await db.flush()`: the primary key and the unique `token`
unfoldable pub flush_row : DeviceToken → Action DeviceToken
flush_row d s =
    if has_row (has_id d.id) s.db.device_tokens || has_row (has_token d.token) s.db.device_tokens
    then (err integrity_error, s)
    else (ok d, record s { db = record s.db { device_tokens = s.db.device_tokens ++ d ∷ [] } })

-- the two branches of `upsert`
unfoldable pub insert_token : Env → ℕ → String → DevicePlatform → Action DeviceToken
insert_token env user_id token platform = do
  id ← draw env.uuid4
  created_at ← draw env.now
  flush_row (record {
    id = id;
    created_at = created_at;
    user_id = user_id;
    token = token;
    platform = platform;
    active = true;
  })

unfoldable pub reactivate : ℕ → DevicePlatform → DeviceToken → Action DeviceToken
reactivate user_id platform d s = (
  ok (reassign user_id platform d),
  record s {
    db = record s.db {
      device_tokens = update_where (has_id d.id) (reassign user_id platform) s.db.device_tokens;
    };
  },
)

-- `upsert`
unfoldable pub upsert : Env → ℕ → String → DevicePlatform → Action DeviceToken
upsert env user_id token platform = do
  existing ← gets (λ db. select_one (has_token token) db.device_tokens)
  elim existing [
    | some d ↦ reactivate user_id platform d
    | none ↦ insert_token env user_id token platform
  ]

-- `get_by_id`
unfoldable pub get_by_id : ℕ → Action (Option DeviceToken)
get_by_id token_id = gets (λ db. select_one (has_id token_id) db.device_tokens)

abbrev pub is_active_of : ℕ → DeviceToken → Bool
is_active_of user_id d = d.user_id == user_id && d.active

-- `get_active_by_user`
unfoldable pub get_active_by_user : Env → ℕ → Action (List DeviceToken)
get_active_by_user env user_id s =
    (ok (env.token_scan s.calls (select_all (is_active_of user_id) s.db.device_tokens)).0, s)

abbrev pub set_inactive : DeviceToken → DeviceToken
set_inactive d = record d { active = false }

-- `deactivate`
unfoldable pub deactivate : DeviceToken → Action (Unit {0})
deactivate d s = (
  ok tt,
  record s {
    db = record s.db { device_tokens = update_where (has_id d.id) set_inactive s.db.device_tokens };
  },
)

-- `deactivate_all_for_user`
unfoldable pub deactivate_all_for_user : ℕ → Action ℕ
deactivate_all_for_user user_id s = (
  ok (row_count (select_all (is_active_of user_id) s.db.device_tokens)),
  record s {
    db = record s.db {
      device_tokens = update_where (is_active_of user_id) set_inactive s.db.device_tokens;
    };
  },
)
