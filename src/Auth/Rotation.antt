-- ===== src/Auth/Rotation.antt =====
-- Refresh tokens are good for one rotation, and a logout ends them.
use nexobank_backend.Models.{Host}
use nexobank_backend.Base.{
  ℕ, ◌+◌, ◌≤◌, ◌≡◌, refl, String, true, false, Option, none, some, [], ◌∷◌, ◌++◌, arith, select_one,
  select_one-update_where, update_where, Option-cases, inl, inr,
}
use nexobank_backend.Models.{RefreshToken}
use nexobank_backend.Session.{Env, Session, ok, err, domain, invalid_credentials}
use nexobank_backend.Security.{hash_token}
use nexobank_backend.Repositories.RefreshTokens
use nexobank_backend.Repositories.RefreshTokens.{has_id, has_hash, set_revoked}
use nexobank_backend.Repositories.AuditLogs
use nexobank_backend.Auth.{refresh_tokens, revoke_live, logout_user}
use nexobank_backend.Auth.Issuing.{token_row}

module _ (env : Env) (raw : String) where
  -- What a rotation has found, and the tokens after it.
  pub record Rotated (s : Session) (pair : String × String) (t : Session) : Type 0 where
    pub stored : RefreshToken
    pub found : select_one (has_hash (env.sha256_hex raw)) s.db.refresh_tokens ≡ some stored
    pub live : stored.revoked ≡ false
    pub not_expired : env.now s.calls ≤ stored.expires_at
    pub issued : pair.1 ≡ env.token_urlsafe (s.calls + 1) 64
    pub tokens :
        t.db.refresh_tokens
        ≡ update_where (has_id stored.id) set_revoked s.db.refresh_tokens
          ++ token_row env stored.user_id (s.calls + 1) ∷ []
    pub committed : t.committed ≡ t.db

  -- the session when the old token is revoked and the new one is not yet there
  abbrev between : RefreshToken → Session → Session
  between stored s = record s {
    db = record s.db {
      refresh_tokens = update_where (has_id stored.id) set_revoked s.db.refresh_tokens;
    };
    calls = s.calls + 1;
  }

  -- A revoked token is refused.
  revoked_refused :
      (s : Session) (stored : RefreshToken)
      → select_one (has_hash (env.sha256_hex raw)) s.db.refresh_tokens ≡ some stored
      → stored.revoked ≡ true
      → refresh_tokens env raw s ≡ (err (domain invalid_credentials), s)
  unfolding refresh_tokens hash_token RefreshTokens.get_by_hash
  revoked_refused s stored e r = ground (arith, e, r)

  unknown_refused :
      (s : Session)
      → select_one (has_hash (env.sha256_hex raw)) s.db.refresh_tokens ≡ none
      → refresh_tokens env raw s ≡ (err (domain invalid_credentials), s)
  unfolding refresh_tokens hash_token RefreshTokens.get_by_hash
  unknown_refused s e = ground (arith, e)

module _ (env : Env) (raw : String) (user_id : ℕ) (ip : Option Host) (s : Session) where
  abbrev pub after_logout : Session
  after_logout = (logout_user env raw user_id ip s).1

  logged_out :
      select_one (has_hash (env.sha256_hex raw)) after_logout.db.refresh_tokens
      ≡ elim (select_one (has_hash (env.sha256_hex raw)) s.db.refresh_tokens) [
        | none ↦ none
        | some stored ↦ some (set_revoked stored)
      ]
  unfolding logout_user revoke_live hash_token RefreshTokens.get_by_hash RefreshTokens.revoke
      AuditLogs.log
  logged_out =
      elim (Option-cases (select_one (has_hash (env.sha256_hex raw)) s.db.refresh_tokens)) [
        | inl e ↦ ground (arith, e)
        | inr (stored, e) ↦ ground (
          arith,
          e,
          select_one-update_where (has_hash (env.sha256_hex raw)) (has_id stored.id) set_revoked
              s.db.refresh_tokens (λ x. refl),
        )
      ]

  returns :
      ((logout_user env raw user_id ip s).0 ≡ ok tt) × (after_logout.committed ≡ after_logout.db)
  unfolding logout_user revoke_live hash_token RefreshTokens.get_by_hash RefreshTokens.revoke
      AuditLogs.log
  returns = elim (Option-cases (select_one (has_hash (env.sha256_hex raw)) s.db.refresh_tokens)) [
    | inl e ↦ ground (arith, e)
    | inr (stored, e) ↦ ground (arith, e)
  ]

  refused_after :
      refresh_tokens env raw after_logout ≡ (err (domain invalid_credentials), after_logout)
  refused_after =
      elim (Option-cases (select_one (has_hash (env.sha256_hex raw)) s.db.refresh_tokens)) [
        | inl e ↦ unknown_refused env raw after_logout (ground (arith, e, logged_out))
        | inr (stored, e) ↦
            revoked_refused env raw after_logout (set_revoked stored)
              (ground (arith, e, logged_out)) refl
      ]

  -- A logout always returns, and has committed; after it the token is refused, whatever it was
  -- before.
  pub logout_user_ends :
      ((logout_user env raw user_id ip s).0 ≡ ok tt)
      × (after_logout.committed ≡ after_logout.db)
      × (refresh_tokens env raw after_logout ≡ (err (domain invalid_credentials), after_logout))
  logout_user_ends = (returns.0, returns.1, refused_after)
