-- ===== src/Devices/Registering.antt =====
-- `register_device_token` and `remove_device_token`: to whom a push token belongs.
use mathlib.Core.Path.{ap, ◌∙◌}
use text.Mathlib.TextEquality.{eq_iff}
use nexobank_backend.Models.{Host}
use nexobank_backend.Base.{
  ℕ, ◌≡◌, ◌≢◌, refl, String, Bool, true, false, ◌&&◌, Option, none, some, List, [], ◌∷◌, ◌++◌,
  arith, str_eq, select_one, has_row, update_where, IsUnique, Option-cases, select_one-append,
  has_row-append, select_one-update_where, Bool-cases, inl, inr,
}
use nexobank_backend.Models.{DeviceToken, DevicePlatform}
use nexobank_backend.Session.{Env, Session, ok}
use nexobank_backend.Repositories.Devices
use nexobank_backend.Repositories.Devices.{has_id, has_token, reassign, is_active_of}
use nexobank_backend.Repositories.AuditLogs
use nexobank_backend.Devices.{register_device_token}

-- the unique index on `token`
abbrev pub same_token : DeviceToken → DeviceToken → Bool
same_token d e = str_eq d.token e.token

-- the row pushes a token to a user
abbrev pub pushes : String → ℕ → DeviceToken → Bool
pushes token user_id d = has_token token d && is_active_of user_id d

no_other_row :
    (token : String) (d : DeviceToken) (t : List DeviceToken)
    → has_token token d ≡ true
    → has_row (same_token d) t ≡ false
    → has_row (has_token token) t ≡ false
no_other_row token d [] e h = refl
no_other_row token d (r ∷ t) e h = ground (
  arith,
  no_other_row token d t e,
  eq_iff d.token token,
  eq_iff d.token r.token,
  eq_iff r.token token,
)

pushes_kept :
    (token : String) (user_id id other : ℕ) (platform : DevicePlatform) (t : List DeviceToken)
    → has_row (has_token token) t ≡ false
    → has_row (pushes token other) (update_where (has_id id) (reassign user_id platform) t) ≡ false
pushes_kept token user_id id other platform [] h = refl
pushes_kept token user_id id other platform (r ∷ t) h =
    ground (arith, pushes_kept token user_id id other platform t)

pushes_moved :
    (token : String) (user_id other : ℕ) (platform : DevicePlatform) (d : DeviceToken)
    (t : List DeviceToken)
    → IsUnique same_token t
    → select_one (has_token token) t ≡ some d
    → other ≢ user_id
    → has_row (pushes token other) (update_where (has_id d.id) (reassign user_id platform) t)
      ≡ false
pushes_moved token user_id other platform d [] u e ne = refl
pushes_moved token user_id other platform d (r ∷ t) u e ne = elim (Bool-cases (has_token token r)) [
  | inl k ↦ ground (
    arith,
    k,
    e,
    ne,
    no_other_row token r t k u.0,
    pushes_kept token user_id d.id other platform t,
  )
  | inr k ↦ ground (arith, k, e, pushes_moved token user_id other platform d t u.1, ne)
]

module _ (env : Env) (user_id : ℕ) (token : String) (platform : DevicePlatform) (ip : Option Host)
    (s : Session) (d : DeviceToken) (t : Session) where
  -- what the call has done to the table
  pub data Registered : Type 0 where
    moved :
        (old : DeviceToken)
        → select_one (has_token token) s.db.device_tokens ≡ some old
        → d ≡ reassign user_id platform old
        → t.db.device_tokens
          ≡ update_where (has_id old.id) (reassign user_id platform) s.db.device_tokens
        → t.committed ≡ t.db
        → Registered
    added :
        select_one (has_token token) s.db.device_tokens ≡ none
        → d.user_id ≡ user_id
        → d.token ≡ token
        → d.platform ≡ platform
        → d.active ≡ true
        → t.db.device_tokens ≡ s.db.device_tokens ++ d ∷ []
        → t.committed ≡ t.db
        → Registered

  register-Registered :
      register_device_token env user_id token platform ip s ≡ (ok d, t) → Registered
  unfolding register_device_token Devices.upsert Devices.reactivate Devices.insert_token
      Devices.flush_row AuditLogs.log
  register-Registered h = elim (Option-cases (select_one (has_token token) s.db.device_tokens)) [
    | inl e ↦
        added e (ground (arith, e)) (ground (arith, e)) (ground (arith, e)) (ground (arith, e))
          (ground (arith, e)) (ground (arith, e))
    | inr (old, e) ↦ moved old e (ground (arith, e)) (ground (arith, e)) (ground (arith, e))
  ]

pushes-none :
    (token : String) (other : ℕ) (t : List DeviceToken)
    → select_one (has_token token) t ≡ none
    → has_row (pushes token other) t ≡ false
pushes-none token other [] h = refl
pushes-none token other (r ∷ t) h = ground (arith, pushes-none token other t)

-- A push token that `register_device_token` has registered is one user's: where the tokens of the
-- table are unique, the token's row is then the one returned, it is active and of the user and the
-- platform asked for, no active row of another user has the token any more, whoever it was registered
-- for, and the change is committed.
pub register_device_token_takes_over :
    (env : Env) (user_id : ℕ) (token : String) (platform : DevicePlatform) (ip : Option Host)
    (s : Session) (d : DeviceToken) (t : Session)
    → IsUnique same_token s.db.device_tokens
    → register_device_token env user_id token platform ip s ≡ (ok d, t)
    → (select_one (has_token token) t.db.device_tokens ≡ some d)
      × (d.user_id ≡ user_id)
      × (d.platform ≡ platform)
      × (d.active ≡ true)
      × ((other : ℕ) → other ≢ user_id → has_row (pushes token other) t.db.device_tokens ≡ false)
      × (t.committed ≡ t.db)
register_device_token_takes_over env user_id token platform ip s d t unique h =
    elim (register-Registered env user_id token platform ip s d t h) [
      | moved old e same rows saved ↦ (
        ap (select_one (has_token token)) rows
            ∙ select_one-update_where (has_token token) (has_id old.id) (reassign user_id platform)
                s.db.device_tokens (λ x. refl)
            ∙ ground (arith, e, same),
        ap (λ x. x.user_id) same,
        ap (λ x. x.platform) same,
        ap (λ x. x.active) same,
        λ other ne.
            ap (has_row (pushes token other)) rows
            ∙ pushes_moved token user_id other platform old s.db.device_tokens unique e ne,
        saved,
      )
      | added e of_user of_token of_platform active rows saved ↦ (
        ap (select_one (has_token token)) rows
            ∙ select_one-append (has_token token) s.db.device_tokens (d ∷ [])
            ∙ ground (arith, e, of_token, eq_iff d.token token),
        of_user,
        of_platform,
        active,
        λ other ne.
            ap (has_row (pushes token other)) rows
            ∙ has_row-append (pushes token other) s.db.device_tokens (d ∷ [])
            ∙ ground (arith, pushes-none token other s.db.device_tokens e, of_user, ne),
        saved,
      )
    ]
