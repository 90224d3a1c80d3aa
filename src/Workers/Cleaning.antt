-- ===== src/Workers/Cleaning.antt =====
-- The clean-up of expired refresh tokens takes no session away.
use nexobank_backend.Base.{
  ℕ, ◌≤◌, ◌≡◌, refl, ◌∙◌, ◌⊎◌, inl, inr, String, Bool, true, false, not, Option, none, some, List,
  [], ◌∷◌, arith, eq_iff, IsUnique, has_row, select_one, select_all, Option-cases, Bool-cases,
}
use nexobank_backend.Models.{RefreshToken}
use nexobank_backend.Session.{Env, Session, err, domain, invalid_credentials}
use nexobank_backend.Security.{hash_token}
use nexobank_backend.Repositories.RefreshTokens.{has_hash, is_expired, delete_expired, get_by_hash}
use nexobank_backend.Auth.{refresh_tokens}
use nexobank_backend.Workers.{cleanup_expired_refresh_tokens}

-- the unique index of `token_hash`
abbrev pub same_hash : RefreshToken → RefreshToken → Bool
same_hash a b = has_hash a.token_hash b

abbrev kept_if : Bool → Option RefreshToken → Option RefreshToken
kept_if true r = r
kept_if false r = none

abbrev live_row : ℕ → Option RefreshToken → Option RefreshToken
live_row now none = none
live_row now (some r) = kept_if (not (is_expired now r)) (some r)

no_second :
    (h : String) (r : RefreshToken) (q : RefreshToken → Bool) (rows : List RefreshToken)
    → has_hash h r ≡ true
    → has_row (same_hash r) rows ≡ false
    → select_one (has_hash h) (select_all q rows) ≡ none
no_second h r q [] e u = refl
no_second h r q (x ∷ rows) e u = ground (
  arith,
  eq_iff r.token_hash h,
  eq_iff x.token_hash h,
  eq_iff x.token_hash r.token_hash,
  no_second h r q rows e,
)

-- A lookup by hash after the expired rows are gone.
select_one-live :
    (h : String) (now : ℕ) (rows : List RefreshToken)
    → IsUnique same_hash rows
    → select_one (has_hash h) (select_all (λ t. not (is_expired now t)) rows)
      ≡ live_row now (select_one (has_hash h) rows)
select_one-live h now [] u = refl
select_one-live h now (x ∷ rows) u =
    ground (arith, no_second h x (λ t. not (is_expired now t)) rows, select_one-live h now rows u.1)

module _ (env : Env) (s : Session) where
  -- what the task leaves
  abbrev pub cleaned : Session
  cleaned = (cleanup_expired_refresh_tokens env s).1

  -- The task deletes the rows that are expired at its moment, commits, and counts them.
  cleanup_deletes :
      cleaned.db.refresh_tokens
      ≡ select_all (λ t. not (is_expired (env.now s.calls) t)) s.db.refresh_tokens
  unfolding cleanup_expired_refresh_tokens delete_expired
  cleanup_deletes = refl

  expired_refused :
      (raw : String) (u : Session) (r : RefreshToken)
      → select_one (has_hash (env.sha256_hex raw)) u.db.refresh_tokens ≡ some r
      → is_expired (env.now u.calls) r ≡ true
      → (refresh_tokens env raw u).0 ≡ err (domain invalid_credentials)
  unfolding refresh_tokens get_by_hash hash_token
  expired_refused raw u r e x = ground (arith, e, x)

  missing_refused :
      (raw : String) (u : Session)
      → select_one (has_hash (env.sha256_hex raw)) u.db.refresh_tokens ≡ none
      → (refresh_tokens env raw u).0 ≡ err (domain invalid_credentials)
  unfolding refresh_tokens get_by_hash hash_token
  missing_refused raw u e = ground (arith, e)

  expired_later :
      (n : ℕ) (r : RefreshToken)
      → env.now s.calls ≤ env.now n
      → is_expired (env.now s.calls) r ≡ true
      → is_expired (env.now n) r ≡ true
  expired_later n r later x = ground arith

  -- Where the token hashes are unique, the clean-up commits a database in which only refresh tokens
  -- are gone; and at any moment not before it, a refresh token either is found as it was without the
  -- clean-up, or is refused with invalid credentials both with it and without it.
  pub cleanup_keeps_sessions :
      IsUnique same_hash s.db.refresh_tokens
      → (raw : String) (n : ℕ) → env.now s.calls ≤ env.now n
      → (cleaned.committed ≡ record s.db { refresh_tokens = cleaned.db.refresh_tokens })
        × ((select_one (has_hash (env.sha256_hex raw)) cleaned.db.refresh_tokens
              ≡ select_one (has_hash (env.sha256_hex raw)) s.db.refresh_tokens)
            ⊎ (((refresh_tokens env raw (record s { calls = n })).0
                  ≡ err (domain invalid_credentials))
                × ((refresh_tokens env raw (record cleaned { calls = n })).0
                    ≡ err (domain invalid_credentials))))
  unfolding cleanup_expired_refresh_tokens delete_expired
  cleanup_keeps_sessions unique raw n later = (
    refl,
    elim (Option-cases (select_one (has_hash (env.sha256_hex raw)) s.db.refresh_tokens)) [
      | inl e ↦ inl (found_after ∙ ground (arith, e))
      | inr (r, e) ↦ elim (Bool-cases (is_expired (env.now s.calls) r)) [
        | inr x ↦ inl (found_after ∙ ground (arith, e, x))
        | inl x ↦ inr (
          expired_refused raw (record s { calls = n }) r e (expired_later n r later x),
          missing_refused raw (record cleaned { calls = n }) (found_after ∙ ground (arith, e, x)),
        )
      ]
    ],
  )
    where
      found_after :
          select_one (has_hash (env.sha256_hex raw)) cleaned.db.refresh_tokens
          ≡ live_row
              (env.now s.calls)
              (select_one (has_hash (env.sha256_hex raw)) s.db.refresh_tokens)
      found_after =
          select_one-live (env.sha256_hex raw) (env.now s.calls) s.db.refresh_tokens unique
