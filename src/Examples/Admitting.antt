-- ===== src/Examples/Admitting.antt =====
-- A request with a token of Ana's.
use nexobank_backend.Base.{◌≡◌, ◌+◌, ◌⊎◌, true, false, some}
use nexobank_backend.Models.{User, is_active}
use nexobank_backend.Session.{Env, ok, err, http}
use nexobank_backend.Dependencies.{get_current_active_user}
use nexobank_backend.Dependencies.Guarding.{Names, get_current_active_user_guards}
use nexobank_backend.Scenario.{env, start, tally}

-- every token is Ana's
abbrev pub signed : Env
signed = record env {
  jwt_decode = λ now token key.
      some (record { sub = some (tally 1); exp = 2000; iat = 1000; token_type = some "access" });
}

get_current_active_user_guards_example :
    ((get_current_active_user signed "jwt" start).1 ≡ record start { calls = start.calls + 1 })
    × (((user : User) × Names signed "jwt" start user
          × (is_active user ≡ true)
          × ((get_current_active_user signed "jwt" start).0 ≡ ok user))
        ⊎ (((user : User) × Names signed "jwt" start user
              × (is_active user ≡ false)
              × ((get_current_active_user signed "jwt" start).0 ≡ err (http 403)))
            ⊎ (((user : User) → ¬ (Names signed "jwt" start user))
                × ((get_current_active_user signed "jwt" start).0 ≡ err (http 401)))))
get_current_active_user_guards_example = get_current_active_user_guards signed "jwt" start
