-- ===== src/Auth/LoginFlow.antt =====
-- `login_user`: who gets in, and what the others see.
use mathlib.Core.Path.{subst, sym}
use nexobank_backend.Models.{Host}
use nexobank_backend.Base.{
  ◌+◌, ◌≤◌, ◌≡◌, refl, String, true, false, ◌&&◌, if◌then◌else◌, has_row,
  has_row-false_of_select_one, has_row_of_select_one, Option, none, some, [], ◌∷◌, ◌++◌, arith,
  select_one, select_one-append, select_one-none_of_has_row, Option-cases, inl, inr, Bool-cases,
}
use text.Mathlib.TextPositions.{eq_refl}
use nexobank_backend.Models.{User, is_active_status}
use nexobank_backend.Session.{
  Env, Session, Db, Result, ok, err, domain, runtime_error, invalid_credentials,
}
use nexobank_backend.Security.{days, verify_password, hash_token}
use nexobank_backend.Repositories.Users
use nexobank_backend.Repositories.Users.{has_email}
use nexobank_backend.Repositories.RefreshTokens
use nexobank_backend.Repositories.RefreshTokens.{has_hash}
use nexobank_backend.Repositories.AuditLogs
use nexobank_backend.Auth.{
  issue_tokens, login_unknown, login_wrong_password, login_verified, login_user, refresh_tokens,
  rotate,
}
use nexobank_backend.Auth.Issuing.{token_row, issue_tokens-ok}

-- An active user with the email and the password.
pub record CanLogin (env : Env) (email password : String) (db : Db) (user : User) : Type 0 where
  pub found : select_one (has_email email) db.users ≡ some user
  pub fits : env.is_oversized password ≡ false
  pub password_right : env.verify password user.password_hash ≡ true
  pub active : is_active_status user.status ≡ true

module _ (env : Env) (email password : String) (ip : Option Host) (s : Session) where
  abbrev pub outcome : Session
  outcome = (login_user env email password ip s).1

  -- Whoever may not log in gets the same error, be the email unknown, the password wrong or the user
  -- not active, but for a password that is too long for the hash function: with the email of a user
  -- the request then fails. No table but the audit log has changed then.
  pub login_user_uniform :
      ((user : User) → ¬ (CanLogin env email password s.db user))
      → ((login_user env email password ip s).0
          ≡ err (
              if has_row (has_email email) s.db.users && env.is_oversized password
              then runtime_error
              else domain invalid_credentials))
        × (outcome.db ≡ record s.db { audit_logs = outcome.db.audit_logs })
  unfolding login_user login_unknown login_wrong_password login_verified verify_password
      Users.get_by_email AuditLogs.log
  login_user_uniform no_one = elim (Option-cases (select_one (has_email email) s.db.users)) [
    | inl e ↦
        let absent = has_row-false_of_select_one (has_email email) s.db.users e in
        (ground (arith, e, absent), ground (arith, e))
    | inr (user, e) ↦
        let present = has_row_of_select_one (has_email email) s.db.users user e in
        elim (Bool-cases (env.is_oversized password)) [
          | inl long ↦ (ground (arith, e, present, long), ground (arith, e, long))
          | inr fits ↦ elim (Bool-cases (env.verify password user.password_hash)) [
            | inr wrong ↦ (ground (arith, e, fits, wrong), ground (arith, e, fits, wrong))
            | inl right ↦ elim (Bool-cases (is_active_status user.status)) [
              | inr inactive ↦ (
                ground (arith, e, fits, right, inactive),
                ground (arith, e, fits, right, inactive),
              )
              | inl active ↦ absurd (
                  no_one user
                    (record { found = e; fits = fits; password_right = right; active = active }))
            ]
          ]
        ]
  ]

  -- What a login has found and stored.
  pub record LoggedIn (user : User) (raw : String) (t : Session) : Type 0 where
    pub can : CanLogin env email password s.db user
    pub raw_token : raw ≡ env.token_urlsafe s.calls 64
    pub new_hash :
        select_one (has_hash (env.sha256_hex (env.token_urlsafe s.calls 64))) s.db.refresh_tokens
        ≡ none
    pub tokens : t.db.refresh_tokens ≡ s.db.refresh_tokens ++ token_row env user.id s.calls ∷ []
    pub committed : t.committed ≡ t.db

  sign_in_found :
      (user : User) {u : User} {access raw : String} {t : Session}
      → select_one (has_email email) s.db.users ≡ some user
      → login_user env email password ip s ≡ (ok (u, access, raw), t)
      → (r : Result (String × String) × Session) → issue_tokens env user.id s ≡ r
      → (u ≡ user) × LoggedIn user raw t
  unfolding login_user login_wrong_password login_verified verify_password Users.get_by_email
      AuditLogs.log
  sign_in_found user e h (err x, v) k = absurd (ground (arith, e, k))
  sign_in_found user e h (ok tokens, v) k =
      let i = issue_tokens-ok env user.id s {pair = tokens} {t = v} k in
      (
        ground (arith, e, k),
        record {
          can = record {
            found = e;
            fits = ground (arith, e, k);
            password_right = ground (arith, e, k);
            active = ground (arith, e, k);
          };
          raw_token = ground (arith, e, k, i.raw);
          new_hash =
              select_one-none_of_has_row (has_hash (token_row env user.id s.calls).token_hash)
                s.db.refresh_tokens i.new_hash;
          tokens = ground (arith, e, k, i.stored);
          committed = ground (arith, e, k);
        },
      )

  -- A login that returns was of an active user with that email and password; it has stored and
  -- committed one live refresh token of that user, whose hash is that of the raw token it returns.
  pub login_user-LoggedIn :
      {user : User} {access raw : String} {t : Session}
      → login_user env email password ip s ≡ (ok (user, access, raw), t)
      → LoggedIn user raw t
  unfolding login_user login_unknown Users.get_by_email AuditLogs.log
  login_user-LoggedIn {user} {access} {raw} {t} h =
      elim (Option-cases (select_one (has_email email) s.db.users)) [
        | inl e ↦ absurd (ground (arith, e))
        | inr (found, e) ↦
            let (same, l) =
              sign_in_found found {u = user} {access = access} {raw = raw} {t = t} e h
                (issue_tokens env found.id s) refl in
            subst (λ x. LoggedIn x raw t) (sym same) l
      ]

  stored_found :
      {user : User} {raw : String} {t : Session}
      → LoggedIn user raw t
      → select_one (has_hash (env.sha256_hex raw)) t.db.refresh_tokens
        ≡ some (token_row env user.id s.calls)
  stored_found {user} l = rw (
    l.raw_token,
    l.tokens,
    select_one-append (has_hash (env.sha256_hex (env.token_urlsafe s.calls 64))) s.db.refresh_tokens
        (token_row env user.id s.calls ∷ []),
    l.new_hash,
    eq_refl (env.sha256_hex (env.token_urlsafe s.calls 64)),
  )

  -- After a login that returned, and until the token expires, a refresh with the raw token passes all
  -- its checks: its result is that of the rotation of the row that the login stored.
  pub login_then_refresh :
      {user : User} {access raw : String} {t : Session}
      → login_user env email password ip s ≡ (ok (user, access, raw), t)
      → env.now t.calls ≤ env.now (s.calls + 1) + days env.settings.refresh_token_expire_days
      → (refresh_tokens env raw t).0
        ≡ (rotate env (token_row env user.id s.calls) (record t { calls = t.calls + 1 })).0
  unfolding refresh_tokens hash_token RefreshTokens.get_by_hash
  login_then_refresh {user} {access} {raw} {t} h in_time =
      let l = login_user-LoggedIn {user = user} {access = access} {raw = raw} {t = t} h in
      ground (arith, stored_found l, in_time)
