-- ===== src/Repositories/RefreshTokens.antt =====
-- app/repositories/refresh_token_repository.py
use nexobank_backend.Base.{
  ℕ, ◌+◌, String, Bool, true, false, ◌&&◌, ◌||◌, not, Option, List, [], ◌∷◌, ◌++◌, ◌==◌, ltb,
  str_eq, select_one, select_all, update_where, has_row, if◌then◌else◌,
}
use nexobank_backend.Models.{RefreshToken}
use nexobank_backend.Session.{Env, integrity_error, Action, ok, err, draw, gets, ◌>>=◌}

-- the number of rows that a statement touched
abbrev pub row_count {ℓ} : {A : Type ℓ} → List A → ℕ
row_count [] = 0
row_count (x ∷ xs) = 1 + row_count xs

abbrev pub has_id : ℕ → RefreshToken → Bool
has_id k t = t.id == k

abbrev pub has_hash : String → RefreshToken → Bool
has_hash h t = str_eq t.token_hash h

-- `db.add(token); await db.flush()`: the primary key and the unique `token_hash`
unfoldable pub flush_row : RefreshToken → Action RefreshToken
flush_row t s =
    if has_row (has_id t.id) s.db.refresh_tokens
      || has_row (has_hash t.token_hash) s.db.refresh_tokens
    then (err integrity_error, s)
    else (ok t, record s { db = record s.db { refresh_tokens = s.db.refresh_tokens ++ t ∷ [] } })

-- `RefreshTokenRepository.create`
unfoldable pub create : Env → ℕ → String → ℕ → Action RefreshToken
create env user_id token_hash expires_at = do
  id ← draw env.uuid4
  created_at ← draw env.now
  flush_row (record {
    id = id;
    created_at = created_at;
    user_id = user_id;
    token_hash = token_hash;
    expires_at = expires_at;
    revoked = false;
  })

-- `get_by_hash`
unfoldable pub get_by_hash : String → Action (Option RefreshToken)
get_by_hash token_hash = gets (λ db. select_one (has_hash token_hash) db.refresh_tokens)

abbrev pub set_revoked : RefreshToken → RefreshToken
set_revoked t = record t { revoked = true }

-- `revoke`
unfoldable pub revoke : RefreshToken → Action (Unit {0})
revoke t s = (
  ok tt,
  record s {
    db = record s.db {
      refresh_tokens = update_where (has_id t.id) set_revoked s.db.refresh_tokens;
    };
  },
)

abbrev pub is_live_of : ℕ → RefreshToken → Bool
is_live_of user_id t = t.user_id == user_id && not t.revoked

-- `revoke_all_for_user`
unfoldable pub revoke_all_for_user : ℕ → Action ℕ
revoke_all_for_user user_id s = (
  ok (row_count (select_all (is_live_of user_id) s.db.refresh_tokens)),
  record s {
    db = record s.db {
      refresh_tokens = update_where (is_live_of user_id) set_revoked s.db.refresh_tokens;
    };
  },
)

abbrev pub is_expired : ℕ → RefreshToken → Bool
is_expired now t = ltb t.expires_at now

-- `delete_expired`, at the moment that the clock shows
unfoldable pub delete_expired : Env → Action ℕ
delete_expired env = do
  now ← draw env.now
  expired ← gets (λ db. select_all (is_expired now) db.refresh_tokens)
  λ s. (
    ok (row_count expired),
    record s {
      db = record s.db {
        refresh_tokens = select_all (λ t. not (is_expired now t)) s.db.refresh_tokens;
      };
    },
  )
