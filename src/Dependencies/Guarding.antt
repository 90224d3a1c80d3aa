-- ===== src/Dependencies/Guarding.antt =====
-- `get_current_active_user`: whom it lets in.
use nexobank_backend.Base.{
  ℕ, ◌+◌, ◌≡◌, ◌⊎◌, String, true, false, some, arith, select_one, is_text, Option-cases, Bool-cases,
  inl, inr,
}
use nexobank_backend.Models.{User, is_active}
use nexobank_backend.Session.{Env, Claims, Session, ok, err, http}
use nexobank_backend.Security.{decode_access_token, subject_of}
use nexobank_backend.Repositories.Users
use nexobank_backend.Repositories.Users.{has_id}
use nexobank_backend.Dependencies.{get_current_user, get_current_active_user}

-- The user whom a token names: the JWT library accepts it with the secret key, its type is "access",
-- and its subject is the id of a user in the table.
pub record Names (env : Env) (token : String) (s : Session) (user : User) : Type 0 where
  pub claims : Claims
  pub subject : String
  pub user_id : ℕ
  pub accepted : env.jwt_decode (env.now s.calls) token env.settings.secret_key ≡ some claims
  pub is_access : is_text "access" claims.token_type ≡ true
  pub subject_claim : claims.sub ≡ some subject
  pub parsed : env.parse_uuid subject ≡ some user_id
  pub found : select_one (has_id user_id) s.db.users ≡ some user

module _ (env : Env) (token : String) (s : Session) where
  subject_found :
      (subject : String)
      → subject_of (env.jwt_decode (env.now s.calls) token env.settings.secret_key) ≡ some subject
      → (claims : Claims) × (env.jwt_decode (env.now s.calls) token env.settings.secret_key
          ≡ some claims)
        × (is_text "access" claims.token_type ≡ true)
        × (claims.sub ≡ some subject)
  subject_found subject h =
      elim (Option-cases (env.jwt_decode (env.now s.calls) token env.settings.secret_key)) [
        | inl e ↦ absurd (ground (arith, e))
        | inr (claims, e) ↦ elim (Bool-cases (is_text "access" claims.token_type)) [
          | inl k ↦ (claims, e, k, ground (arith, e, k))
          | inr k ↦ absurd (ground (arith, e, k))
        ]
      ]

  -- A request is let in as the user whom its token names, if that user is active, and gets 403 if the
  -- user is not active; where the token names no user, it gets 401. The tables do not change.
  pub get_current_active_user_guards :
      ((get_current_active_user env token s).1 ≡ record s { calls = s.calls + 1 })
      × (((user : User) × Names env token s user
            × (is_active user ≡ true)
            × ((get_current_active_user env token s).0 ≡ ok user))
          ⊎ (((user : User) × Names env token s user
                × (is_active user ≡ false)
                × ((get_current_active_user env token s).0 ≡ err (http 403)))
              ⊎ (((user : User) → ¬ (Names env token s user))
                  × ((get_current_active_user env token s).0 ≡ err (http 401)))))
  unfolding get_current_active_user get_current_user decode_access_token Users.get_by_id
  get_current_active_user_guards =
      elim (Option-cases
        (subject_of (env.jwt_decode (env.now s.calls) token env.settings.secret_key))) [
          | inl e ↦ (
            ground (arith, e),
            inr (
                inr (
                  λ user n. ground (arith, e, n.accepted, n.is_access, n.subject_claim),
                  ground (arith, e),
                )),
          )
          | inr (subject, e) ↦ elim (Option-cases (env.parse_uuid subject)) [
            | inl k ↦ (
              ground (arith, e, k),
              inr (
                  inr (
                    λ user n.
                        ground (arith, e, k, n.accepted, n.is_access, n.subject_claim, n.parsed),
                    ground (arith, e, k),
                  )),
            )
            | inr (user_id, k) ↦ elim (Option-cases (select_one (has_id user_id) s.db.users)) [
              | inl h ↦ (
                ground (arith, e, k, h),
                inr (
                    inr (
                      λ user n. ground (
                        arith, e, k, h, n.accepted, n.is_access, n.subject_claim, n.parsed, n.found,
                      ),
                      ground (arith, e, k, h),
                    )),
              )
              | inr (user, h) ↦
                  let (claims, a, b, c) = subject_found subject e in
                  let named : Names env token s user = record {
                    claims = claims;
                    subject = subject;
                    user_id = user_id;
                    accepted = a;
                    is_access = b;
                    subject_claim = c;
                    parsed = k;
                    found = h;
                  } in
                  elim (Bool-cases (is_active user)) [
                    | inl j ↦ (
                      ground (arith, e, k, h, j),
                      inl (user, named, j, ground (arith, e, k, h, j)),
                    )
                    | inr j ↦ (
                      ground (arith, e, k, h, j),
                      inr (inl (user, named, j, ground (arith, e, k, h, j))),
                    )
                  ]
            ]
          ]
        ]
