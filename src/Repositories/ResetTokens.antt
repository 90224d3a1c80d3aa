-- ===== src/Repositories/ResetTokens.antt =====
-- app/repositories/password_reset_token_repository.py
use nexobank_backend.Base.{
  ℕ, String, Bool, true, false, ◌||◌, Option, [], ◌∷◌, ◌++◌, ◌==◌, str_eq, select_one, update_where,
  has_row, if◌then◌else◌,
}
use nexobank_backend.Models.{PasswordResetToken}
use nexobank_backend.Session.{Env, integrity_error, Action, ok, err, draw, gets, ◌>>=◌}

abbrev pub has_id : ℕ → PasswordResetToken → Bool
has_id k t = t.id == k

abbrev pub has_hash : String → PasswordResetToken → Bool
has_hash h t = str_eq t.token_hash h

-- `db.add(token); await db.flush()`: the primary key and the unique `token_hash`
unfoldable pub flush_row : PasswordResetToken → Action PasswordResetToken
flush_row t s =
    if has_row (has_id t.id) s.db.password_reset_tokens
      || has_row (has_hash t.token_hash) s.db.password_reset_tokens
    then (err integrity_error, s)
    else (
      ok t,
      record s {
        db = record s.db { password_reset_tokens = s.db.password_reset_tokens ++ t ∷ [] };
      },
    )

-- `PasswordResetTokenRepository.create`
unfoldable pub create : Env → ℕ → String → ℕ → Action PasswordResetToken
create env user_id token_hash expires_at = do
  id ← draw env.uuid4
  created_at ← draw env.now
  flush_row (record {
    id = id;
    created_at = created_at;
    user_id = user_id;
    token_hash = token_hash;
    expires_at = expires_at;
    used = false;
  })

-- `get_by_hash`
unfoldable pub get_by_hash : String → Action (Option PasswordResetToken)
get_by_hash token_hash = gets (λ db. select_one (has_hash token_hash) db.password_reset_tokens)

abbrev pub set_used : PasswordResetToken → PasswordResetToken
set_used t = record t { used = true }

-- `mark_used`
unfoldable pub mark_used : PasswordResetToken → Action (Unit {0})
mark_used t s = (
  ok tt,
  record s {
    db = record s.db {
      password_reset_tokens = update_where (has_id t.id) set_used s.db.password_reset_tokens;
    };
  },
)
