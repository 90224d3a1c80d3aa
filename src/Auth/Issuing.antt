-- ===== src/Auth/Issuing.antt =====
-- `issue_tokens`: what is stored for a new token pair.
use nexobank_backend.Base.{ℕ, ◌+◌, ◌≡◌, String, false, [], ◌∷◌, ◌++◌, arith, has_row}
use nexobank_backend.Models.{RefreshToken}
use nexobank_backend.Session.{Env, Session, ok}
use nexobank_backend.Security.{days, create_access_token, create_refresh_token}
use nexobank_backend.Repositories.RefreshTokens
use nexobank_backend.Repositories.RefreshTokens.{has_id, has_hash, set_revoked}
use nexobank_backend.Auth.{issue_tokens}

module _ (env : Env) (user_id : ℕ) where
  -- the row, when the generators were called `n` times before
  abbrev pub token_row : ℕ → RefreshToken
  token_row n = record {
    id = env.uuid4 (n + 1 + 1);
    created_at = env.now (n + 1 + 1 + 1);
    user_id = user_id;
    token_hash = env.sha256_hex (env.token_urlsafe n 64);
    expires_at = env.now (n + 1) + days env.settings.refresh_token_expire_days;
    revoked = false;
  }

  -- The row is new, and the raw token that is returned hashes to what it holds.
  pub record Issued (s : Session) (pair : String × String) (t : Session) : Type 0 where
    pub new_hash : has_row (has_hash (token_row s.calls).token_hash) s.db.refresh_tokens ≡ false
    pub raw : pair.1 ≡ env.token_urlsafe s.calls 64
    pub stored :
        t.db ≡ record s.db { refresh_tokens = s.db.refresh_tokens ++ token_row s.calls ∷ [] }
    pub not_committed : t.committed ≡ s.committed
    pub calls : t.calls ≡ s.calls + 6

  pub issue_tokens-ok :
      (s : Session) {pair : String × String} {t : Session}
      → issue_tokens env user_id s ≡ (ok pair, t)
      → Issued s pair t
  unfolding issue_tokens create_refresh_token create_access_token RefreshTokens.create
      RefreshTokens.flush_row
  issue_tokens-ok s h = record {
    new_hash = ground arith;
    raw = ground arith;
    stored = ground arith;
    not_committed = ground arith;
    calls = ground arith;
  }
