-- ===== src/Devices/Removing.antt =====
-- `remove_device_token`: whose push tokens it takes away, and when it does not.
use mathlib.Core.List.{Permᴰ}
use mathlib.Core.Path.{subst}
use nexobank_backend.Models.{Host}
use nexobank_backend.Base.{
  ◌⊎◌, ℕ, ◌≡◌, refl, ◌&&◌, not, Option, none, some, List, [], ◌∷◌, arith, ◌≢◌, select_one_holds,
  select_one, select_all, update_where, Option-cases, Bool-cases, inl, inr,
}
use nexobank_backend.Models.{DeviceToken}
use nexobank_backend.Session.{Env, Session, Error, ok, err, domain, unauthorized_resource}
use nexobank_backend.Repositories.Devices
use nexobank_backend.Repositories.Devices.{has_id, is_active_of, set_inactive}
use nexobank_backend.Repositories.AuditLogs
use nexobank_backend.Devices.{list_device_tokens, remove_device_token, remove_found}

-- Rows that are set inactive are not listed; the other rows are listed as before.
listed_after :
    (id user_id : ℕ) (t : List DeviceToken)
    → select_all (is_active_of user_id) (update_where (has_id id) set_inactive t)
      ≡ select_all (λ d. is_active_of user_id d && not (has_id id d)) t
listed_after id user_id [] = refl
listed_after id user_id (d ∷ t) = elim (Bool-cases (has_id id d)) [
  | inl e ↦ ground (arith, e, listed_after id user_id t)
  | inr e ↦ ground (arith, e, listed_after id user_id t)
]

module _ (env : Env) (token_id user_id : ℕ) (ip : Option Host) (s : Session) where
  -- A call of `remove_device_token` that returns has found a token of the user who asks; the tokens
  -- that are listed afterwards, for any user, are those that are active, of the user and do not have
  -- the id, in some order; and that is committed.
  pub remove_device_token_unlists :
      (u : Unit {0}) (t : Session)
      → remove_device_token env token_id user_id ip s ≡ (ok u, t)
      → (d : DeviceToken) × (select_one (has_id token_id) s.db.device_tokens ≡ some d)
        × (d.user_id ≡ user_id)
        × ((any : ℕ)
            → (rows : List DeviceToken) × (list_device_tokens env any t ≡ (ok rows, t))
              × Permᴰ rows (
                  select_all
                    (λ x. is_active_of any x && not (has_id token_id x))
                    s.db.device_tokens))
        × (t.committed ≡ t.db)
  unfolding remove_device_token remove_found Devices.get_by_id Devices.deactivate AuditLogs.log
      list_device_tokens Devices.get_active_by_user
  remove_device_token_unlists u t h =
      elim (Option-cases (select_one (has_id token_id) s.db.device_tokens)) [
        | inl e ↦ absurd (ground (arith, e))
        | inr (d, e) ↦ (
          d,
          e,
          ground (arith, e),
          λ any.
              let listed =
                env.token_scan t.calls (select_all (is_active_of any) t.db.device_tokens) in
              (
                listed.0,
                refl,
                subst (Permᴰ listed.0)
                    (ground (
                      arith,
                      e,
                      listed_after token_id any s.db.device_tokens,
                      select_one_holds (has_id token_id) s.db.device_tokens d e,
                    ))
                    listed.1,
              ),
          ground (arith, e),
        )
      ]

  -- A call of `remove_device_token` that raises has the error `UnauthorizedResourceError` and leaves
  -- everything as it was; no token has the id then, or the token is another user's.
  pub remove_device_token_refuses :
      (e : Error) (t : Session)
      → remove_device_token env token_id user_id ip s ≡ (err e, t)
      → (t ≡ s)
        × (e ≡ domain unauthorized_resource)
        × ((select_one (has_id token_id) s.db.device_tokens ≡ none)
            ⊎ ((d : DeviceToken) × (select_one (has_id token_id) s.db.device_tokens ≡ some d)
                × (d.user_id ≢ user_id)))
  unfolding remove_device_token remove_found Devices.get_by_id Devices.deactivate AuditLogs.log
  remove_device_token_refuses e t h =
      elim (Option-cases (select_one (has_id token_id) s.db.device_tokens)) [
        | inl k ↦ (ground (arith, k), ground (arith, k), inl k)
        | inr (d, k) ↦ (ground (arith, k), ground (arith, k), inr (d, k, ground (arith, k)))
      ]
