-- ===== src/Repositories/Users.antt =====
-- app/repositories/user_repository.py
use nexobank_backend.Base.{
  ℕ, String, Bool, ◌||◌, Option, [], ◌∷◌, ◌++◌, ◌==◌, str_eq, select_one, update_where, has_row,
  if◌then◌else◌,
}
use nexobank_backend.Models.{User, UserStatus, UserRole}
use nexobank_backend.Session.{Env, integrity_error, Action, ok, err, draw, gets, ◌>>=◌}

abbrev pub has_id : ℕ → User → Bool
has_id k u = u.id == k

abbrev pub has_email : String → User → Bool
has_email email u = str_eq u.email email

-- `get_by_id`
unfoldable pub get_by_id : ℕ → Action (Option User)
get_by_id user_id = gets (λ db. select_one (has_id user_id) db.users)

-- `get_by_email`
unfoldable pub get_by_email : String → Action (Option User)
get_by_email email = gets (λ db. select_one (has_email email) db.users)

-- `db.add(user); await db.flush()`: the primary key and the unique `email`
unfoldable pub flush_row : User → Action User
flush_row u s =
    if has_row (has_id u.id) s.db.users || has_row (has_email u.email) s.db.users
    then (err integrity_error, s)
    else (ok u, record s { db = record s.db { users = s.db.users ++ u ∷ [] } })

module _ (env : Env) where
  -- `create`
  unfoldable pub create : String → String → String → Option String → Action User
  create email password_hash full_name phone = do
    id ← draw env.uuid4
    created_at ← draw env.now
    flush_row (record {
      id = id;
      created_at = created_at;
      email = email;
      password_hash = password_hash;
      full_name = full_name;
      phone = phone;
      status = UserStatus.active;
      role = UserRole.customer;
    })

-- `update`: the named fields of the user are set, and the row is written
unfoldable pub update : User → (User → User) → Action User
update user fields s = (
  ok (fields user),
  record s { db = record s.db { users = update_where (has_id user.id) fields s.db.users } },
)
