-- ===== src/Routers/Joining.antt =====
-- `register` and then `login`, with the same email and password.
use nexobank_backend.Models.{Host}
use nexobank_backend.Base.{
  ℕ, ◌+◌, ◌≡◌, ◌||◌, refl, String, true, false, Option, none, some, [], ◌∷◌, ◌++◌, arith,
  select_one, has_row, select_one-append, Option-cases, inl, inr, Bool-cases,
}
use text.Mathlib.TextPositions.{eq_refl}
use nexobank_backend.Models.{RefreshToken, User, UserStatus, UserRole}
use nexobank_backend.Session.{Env, Session, Result, ok, err}
use nexobank_backend.Security.{
  hash_password, verify_password, create_refresh_token, create_access_token, hash_token, minutes,
}
use nexobank_backend.Repositories.Users
use nexobank_backend.Repositories.Users.{has_id, has_email}
use nexobank_backend.Repositories.RefreshTokens
use nexobank_backend.Repositories.AuditLogs
use nexobank_backend.Auth.{issue_tokens, login_user, login_verified, register_user, Login}
use nexobank_backend.Auth.Issuing.{token_row, issue_tokens-ok}
use nexobank_backend.Auth.LoginFlow.{CanLogin}
use nexobank_backend.Schemas.{TokenResponse, email_str, password_strength}
use nexobank_backend.Routers.Auth.{token_response, register, login}

module _ (env : Env) where
  -- the row of the new user
  abbrev new_user : String → String → String → Option String → ℕ → User
  new_user email password full_name phone n = record {
    id = env.uuid4 (n + 1);
    created_at = env.now (n + 1 + 1);
    email = email;
    password_hash = env.hash n password;
    full_name = full_name;
    phone = phone;
    status = UserStatus.active;
    role = UserRole.customer;
  }

  abbrev at_issue : String → String → String → Option String → Session → Session
  at_issue email password full_name phone s = record s {
    db = record s.db { users = s.db.users ++ new_user email password full_name phone s.calls ∷ [] };
    calls = s.calls + 1 + 1 + 1;
  }

  -- What a registration has found and stored.
  record Joined (email password full_name : String) (phone : Option String) (s t : Session)
      : Type 0 where
    is_new : select_one (has_email email) s.db.users ≡ none
    fits : env.is_oversized password ≡ false
    users : t.db.users ≡ s.db.users ++ new_user email password full_name phone s.calls ∷ []
    committed : t.committed ≡ t.db

  module _ (email password full_name : String) (phone : Option String) (ip : Option Host)
      (s : Session) where
    abbrev row : User
    row = new_user email password full_name phone s.calls

    abbrev before_tokens : Session
    before_tokens = at_issue email password full_name phone s

    register_tail :
        {made : Login} {t : Session}
        → register_user env email password full_name phone ip s ≡ (ok made, t)
        → select_one (has_email email) s.db.users ≡ none
        → (has_row (has_id row.id) s.db.users || has_row (has_email email) s.db.users) ≡ false
        → (r : Result (String × String) × Session) → issue_tokens env row.id before_tokens ≡ r
        → Joined email password full_name phone s t
    unfolding register_user hash_password Users.get_by_email Users.create Users.flush_row
        AuditLogs.log
    register_tail h e f (err x, u) k = absurd (ground (arith, e, f, k))
    register_tail {made} {t} h e f (ok tokens, u) k =
        let i = issue_tokens-ok env row.id before_tokens {pair = tokens} {t = u} k in
        record {
          is_new = e;
          fits = ground (arith, e, f, k);
          users = ground (arith, e, f, k, i.stored);
          committed = ground (arith, e, f, k);
        }

    register_user-Joined :
        {made : Login} {t : Session}
        → register_user env email password full_name phone ip s ≡ (ok made, t)
        → Joined email password full_name phone s t
    unfolding register_user hash_password Users.get_by_email Users.create Users.flush_row
    register_user-Joined {made} {t} h =
        elim (Option-cases (select_one (has_email email) s.db.users)) [
          | inr (u, e) ↦ absurd (ground (arith, e))
          | inl e ↦
              elim (Bool-cases
                (has_row (has_id row.id) s.db.users || has_row (has_email email) s.db.users)) [
                  | inl f ↦ absurd (ground (arith, e, f))
                  | inr f ↦
                      register_tail {made = made} {t = t} h e f
                        (issue_tokens env row.id before_tokens) refl
                ]
        ]

  -- The next refresh token collides with none that is stored.
  pub record Fresh (t : Session) : Type 0 where
    pub id :
        has_row (RefreshTokens.has_id (env.uuid4 (t.calls + 1 + 1))) t.db.refresh_tokens ≡ false
    pub hash :
        has_row
          (RefreshTokens.has_hash (env.sha256_hex (env.token_urlsafe t.calls 64)))
          t.db.refresh_tokens
        ≡ false

  -- the access token of a login
  abbrev access_of : User → Session → String
  access_of user t =
      env.jwt_encode
        (record {
          sub = some (env.uuid_text user.id);
          exp =
              env.now (t.calls + 1 + 1 + 1 + 1) + minutes env.settings.access_token_expire_minutes;
          iat = env.now (t.calls + 1 + 1 + 1 + 1 + 1);
          token_type = some "access";
        })
        env.settings.secret_key

  -- what the token pair of a user leaves
  abbrev issued : ℕ → Session → Session
  issued user_id t = record t {
    db = record t.db { refresh_tokens = t.db.refresh_tokens ++ token_row env user_id t.calls ∷ [] };
    calls = t.calls + 1 + 1 + 1 + 1 + 1 + 1;
  }

  flush_row-passes :
      (r : RefreshToken) (t : Session)
      → has_row (RefreshTokens.has_id r.id) t.db.refresh_tokens ≡ false
      → has_row (RefreshTokens.has_hash r.token_hash) t.db.refresh_tokens ≡ false
      → RefreshTokens.flush_row r t
        ≡ (ok r, record t { db = record t.db { refresh_tokens = t.db.refresh_tokens ++ r ∷ [] } })
  unfolding RefreshTokens.flush_row
  flush_row-passes r t a b = rw (a, b)

  issue_tokens_passes :
      (user : User) (t : Session)
      → Fresh t
      → issue_tokens env user.id t
        ≡ (ok (access_of user t, env.token_urlsafe t.calls 64), issued user.id t)
  unfolding issue_tokens create_refresh_token create_access_token hash_token RefreshTokens.create
  issue_tokens_passes user t fresh = ground (
    arith,
    flush_row-passes (token_row env user.id t.calls) (record t { calls = t.calls + 1 + 1 + 1 + 1 })
        fresh.id fresh.hash,
  )

  login_user_passes :
      (email password : String) (ip : Option Host) (t : Session) (user : User)
      → CanLogin env email password t.db user
      → Fresh t
      → (login_user env email password ip t).0
        ≡ ok (user, access_of user t, env.token_urlsafe t.calls 64)
  unfolding login_user login_verified verify_password Users.get_by_email AuditLogs.log
  login_user_passes email password ip t user can fresh =
      ground (
        arith,
        can.found,
        can.fits,
        can.password_right,
        can.active,
        issue_tokens_passes user t fresh,
      )

  module _
      (verifies : (n : ℕ) (password : String) → env.verify password (env.hash n password) ≡ true)
      (email password full_name : String) (phone : Option String) (ip : Option Host)
      (s : Session) where
    can_login :
        {t : Session}
        → Joined email password full_name phone s t
        → CanLogin env email password t.db (new_user email password full_name phone s.calls)
    can_login {t} j = record {
      found = rw j.users (
          ground (
            arith,
            select_one-append (has_email email) s.db.users
                (new_user email password full_name phone s.calls ∷ []),
            j.is_new,
            eq_refl email,
          ));
      fits = j.fits;
      password_right = verifies s.calls password;
      active = refl;
    }

  strength_looks : (password : String) (s : Session) → (password_strength env password s).1 ≡ s
  unfolding password_strength
  strength_looks password s = ground arith

  -- What a login at `t` answers after a registration that left `t`.
  abbrev pub LogsIn : String → String → Option Host → Session → Type 0
  LogsIn email password ip t =
      (t.committed ≡ t.db)
      × ((access : String) × ((login env email password ip t).0
            ≡ ok (token_response access (env.token_urlsafe t.calls 64))))

  module _
      (verifies : (n : ℕ) (password : String) → env.verify password (env.hash n password) ≡ true)
      (email password full_name : String) (phone : Option String) (ip : Option Host) (s : Session)
      {made : TokenResponse} {t : Session}
      (h : register env email password full_name phone ip s ≡ (ok made, t)) (fresh : Fresh t) where
    created-LogsIn :
        (address : String)
        → env.validate_email email ≡ some address
        → password_strength env password s ≡ (ok tt, s)
        → (r : Result Login × Session) → register_user env address password full_name phone ip s ≡ r
        → LogsIn email password ip t
    unfolding register login email_str
    created-LogsIn address e k (err x, u) r = absurd (ground (arith, e, k, r))
    created-LogsIn address e k (ok login_made, u) r =
        let j =
          register_user-Joined address password full_name phone ip s {made = login_made} {t = t}
            (ground (arith, e, k, r)) in
        let user = new_user address password full_name phone s.calls in
        (
          j.committed,
          (
            access_of user t,
            ground (
              arith,
              e,
              login_user_passes address password ip t user
                  (can_login verifies address password full_name phone ip s {t = t} j) fresh,
            ),
          ),
        )

    checked-LogsIn :
        (address : String)
        → env.validate_email email ≡ some address
        → (r : Result (Unit {0}) × Session) → password_strength env password s ≡ r
        → LogsIn email password ip t
    unfolding register email_str
    checked-LogsIn address e (err x, u) k = absurd (ground (arith, e, k))
    checked-LogsIn address e (ok x, u) k =
        created-LogsIn address e (ground (arith, k, strength_looks password s))
          (register_user env address password full_name phone ip s) refl

    -- Where the hash of a password verifies it: after a registration that returns, which has committed
    -- what it wrote, a login with the same email and password returns a token pair, unless its new
    -- refresh token collides with a stored one.
    pub register_then_login : LogsIn email password ip t
    unfolding register email_str
    register_then_login = elim (Option-cases (env.validate_email email)) [
      | inl refused ↦ absurd (ground (arith, h, refused))
      | inr (address, e) ↦ checked-LogsIn address e (password_strength env password s) refl
    ]
