-- ===== src/Auth/Reset.antt =====
-- Password resets: a token is good for one, and what a reset changes and what it leaves.
use mathlib.Core.Path.{ap, ◌∙◌}
use nexobank_backend.Models.{Host}
use nexobank_backend.Base.{
  ℕ, ◌+◌, ◌≤◌, ◌≡◌, refl, String, true, false, Option, none, some, arith, select_one,
  select_one-update_where, update_where, Option-cases, inl, inr, Bool,
}
use nexobank_backend.Models.{User, PasswordResetToken}
use nexobank_backend.Session.{Env, Session, ok, err, domain, invalid_credentials}
use nexobank_backend.Security.{hash_token, hash_password, is_production}
use nexobank_backend.Repositories.Users
use nexobank_backend.Repositories.ResetTokens
use nexobank_backend.Repositories.ResetTokens.{has_id, has_hash, set_used}
use nexobank_backend.Repositories.AuditLogs
use nexobank_backend.Auth.{confirm_password_reset, request_password_reset}

-- the assignment of the new hash
abbrev set_password : String → User → User
set_password h u = record u { password_hash = h }

module _ (env : Env) (raw password : String) (ip : Option Host) (s : Session) where
  -- What a confirmation has found, and what it has changed. The refresh tokens stay as they were.
  pub record Reset (t : Session) : Type 0 where
    pub stored : PasswordResetToken
    pub user : User
    pub found : select_one (has_hash (env.sha256_hex raw)) s.db.password_reset_tokens ≡ some stored
    pub unused : stored.used ≡ false
    pub not_expired : env.now s.calls ≤ stored.expires_at
    pub user_found : select_one (Users.has_id stored.user_id) s.db.users ≡ some user
    pub users :
        t.db.users
        ≡ update_where
            (Users.has_id user.id)
            (set_password (env.hash (s.calls + 1) password))
            s.db.users
    pub reset_tokens :
        t.db.password_reset_tokens
        ≡ update_where (has_id stored.id) set_used s.db.password_reset_tokens
    pub refresh_tokens : t.db.refresh_tokens ≡ s.db.refresh_tokens
    pub committed : t.committed ≡ t.db

  confirm-Reset :
      {u : Unit {0}} {t : Session}
      → confirm_password_reset env raw password ip s ≡ (ok u, t)
      → Reset t
  unfolding confirm_password_reset hash_token hash_password ResetTokens.get_by_hash
      ResetTokens.mark_used Users.get_by_id Users.update AuditLogs.log
  confirm-Reset h =
      elim (Option-cases (select_one (has_hash (env.sha256_hex raw)) s.db.password_reset_tokens)) [
        | inl e ↦ absurd (ground (arith, e))
        | inr (stored, e) ↦
            elim (Option-cases (select_one (Users.has_id stored.user_id) s.db.users)) [
              | inl k ↦ absurd (ground (arith, e, k))
              | inr (user, k) ↦ record {
                stored = stored;
                user = user;
                found = e;
                unused = ground (arith, e, k);
                not_expired = ground (arith, e, k);
                user_found = k;
                users = ground (arith, e, k);
                reset_tokens = ground (arith, e, k);
                refresh_tokens = ground (arith, e, k);
                committed = ground (arith, e, k);
              }
            ]
      ]

  token_used :
      {t : Session} (r : Reset t)
      → select_one (has_hash (env.sha256_hex raw)) t.db.password_reset_tokens
        ≡ some (set_used r.stored)
  token_used r =
      rw
        (
          r.reset_tokens,
          select_one-update_where (has_hash (env.sha256_hex raw)) (has_id r.stored.id) set_used
              s.db.password_reset_tokens (λ x. refl),
          r.found,
        )
        (ground arith)

module _ (env : Env) (raw : String) where
  used_refused :
      (password : String) (ip : Option Host) (s : Session) (stored : PasswordResetToken)
      → select_one (has_hash (env.sha256_hex raw)) s.db.password_reset_tokens ≡ some stored
      → stored.used ≡ true
      → confirm_password_reset env raw password ip s ≡ (err (domain invalid_credentials), s)
  unfolding confirm_password_reset hash_token ResetTokens.get_by_hash
  used_refused password ip s stored e r = ground (arith, e, r)

  -- A reset token is good for one reset: after a confirmation that returned, a second one with the
  -- same token, whatever the password, is refused and changes nothing.
  pub confirm_password_reset_once :
      (password other : String) (ip ip' : Option Host) (s : Session) {u : Unit {0}} {t : Session}
      → confirm_password_reset env raw password ip s ≡ (ok u, t)
      → confirm_password_reset env raw other ip' t ≡ (err (domain invalid_credentials), t)
  confirm_password_reset_once password other ip ip' s {u} {t} h =
      let r = confirm-Reset env raw password ip s {u = u} {t = t} h in
      used_refused other ip' t (set_used r.stored) (token_used env raw password ip s r) refl

  -- A confirmation that returns gives the token's user the hash of the new password, which the new
  -- password verifies where the hash function is one that verifies its own hashes; every refresh token
  -- of the user is as it was, so that one issued before the reset is as good after it.
  pub confirm_password_reset_sets :
      ((n : ℕ) (p : String) → env.verify p (env.hash n p) ≡ true)
      → (password : String) (ip : Option Host) (s : Session) {u : Unit {0}} {t : Session}
      → confirm_password_reset env raw password ip s ≡ (ok u, t)
      → (stored : PasswordResetToken) × (user : User) × (select_one
            (has_hash (env.sha256_hex raw))
            s.db.password_reset_tokens
          ≡ some stored)
        × (select_one (Users.has_id stored.user_id) t.db.users ≡ some user)
        × (env.verify password user.password_hash ≡ true)
        × (t.db.refresh_tokens ≡ s.db.refresh_tokens)
        × (t.committed ≡ t.db)
  confirm_password_reset_sets verifies password ip s {u} {t} h =
      let r = confirm-Reset env raw password ip s {u = u} {t = t} h in
      (
        r.stored,
        set_password (env.hash (s.calls + 1) password) r.user,
        r.found,
        ap (select_one (Users.has_id r.stored.user_id)) r.users
            ∙ rw
                (
                  select_one-update_where (Users.has_id r.stored.user_id) (Users.has_id r.user.id)
                      (set_password (env.hash (s.calls + 1) password)) s.db.users (λ x. refl),
                  r.user_found,
                )
                (ground arith),
        verifies (s.calls + 1) password,
        r.refresh_tokens,
        r.committed,
      )

-- In production a request for a reset that returns gives out no token, whether the email is known or
-- not.
pub request_password_reset_hides :
    (env : Env) (email : String) (ip : Option Host) (s : Session) {out : Option String × Bool}
    {t : Session}
    → is_production env.settings ≡ true
    → request_password_reset env email ip s ≡ (ok out, t)
    → out ≡ (none, false)
unfolding request_password_reset Users.get_by_email hash_token ResetTokens.create
    ResetTokens.flush_row AuditLogs.log
request_password_reset_hides env email ip s p h = ground (arith, p)
