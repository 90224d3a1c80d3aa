-- ===== src/Examples/Signing.antt =====
-- Logins, rotations and resets on the small bank.
use text.Mathlib.TextPositions.{eq_refl}
use nexobank_backend.Base.{
  ◌+◌, ◌≡◌, refl, String, Bool, true, false, Option, none, some, arith, select_one,
}
use nexobank_backend.Models.{User, PasswordResetToken}
use nexobank_backend.Session.{Session, ok, err, domain, invalid_credentials}
use nexobank_backend.Repositories.Users
use nexobank_backend.Repositories.ResetTokens
use nexobank_backend.Auth.{
  login_user, refresh_tokens, logout_user, confirm_password_reset, request_password_reset, rotate,
}
use nexobank_backend.Auth.Issuing.{token_row}
use nexobank_backend.Auth.Rotation.{logout_user_ends, after_logout}
use nexobank_backend.Auth.LoginFlow.{
  LoggedIn, login_user_uniform, login_user-LoggedIn, login_then_refresh, outcome,
}
use nexobank_backend.Auth.Reset.{
  confirm_password_reset_once, confirm_password_reset_sets, request_password_reset_hides,
}
use nexobank_backend.Security.{is_production}
use text.Mathlib.TextPositions.{eq_refl}
use nexobank_backend.Base.{lower}
use nexobank_backend.Repositories.RefreshTokens
use nexobank_backend.Security.{hash_token}
use nexobank_backend.Auth.{issue_tokens}
use nexobank_backend.Security.{create_refresh_token}
use nexobank_backend.Security.{create_access_token}
use nexobank_backend.Repositories.AuditLogs
use nexobank_backend.Security.{verify_password}
use nexobank_backend.Auth.{login_verified}
use nexobank_backend.Security.{hash_password}
use nexobank_backend.Scenario.{env, start, bank, ana}

abbrev rotated : Session
rotated = (refresh_tokens env "refresh" start).1

login_user_uniform_example :
    ((login_user env "ben@example.com" "password1" none start).0 ≡ err (domain invalid_credentials))
    × ((outcome env "ben@example.com" "password1" none start).db ≡ record bank {
      audit_logs = (outcome env "ben@example.com" "password1" none start).db.audit_logs;
    })
login_user_uniform_example =
    login_user_uniform env "ben@example.com" "password1" none start
      (λ user can. ground (arith, can.found, can.active))

abbrev inside : Session
inside = (login_user env "ana@example.com" "password1" none start).1

login_returned :
    login_user env "ana@example.com" "password1" none start ≡ (ok (ana, "jwt", "new token"), inside)
unfolding login_user Users.get_by_email verify_password login_verified issue_tokens
    create_refresh_token RefreshTokens.create RefreshTokens.flush_row create_access_token
    AuditLogs.log
login_returned = refl

login_user-LoggedIn_example :
    LoggedIn env "ana@example.com" "password1" none start ana "new token" inside
login_user-LoggedIn_example =
    login_user-LoggedIn env "ana@example.com" "password1" none start {user = ana} {access = "jwt"}
      {raw = "new token"} {t = inside} login_returned

login_in_time : inside.calls ≡ 8
unfolding login_user Users.get_by_email verify_password login_verified issue_tokens
    create_refresh_token RefreshTokens.create RefreshTokens.flush_row create_access_token
    AuditLogs.log
login_in_time = refl

login_then_refresh_example :
    (refresh_tokens env "new token" inside).0
    ≡ (rotate env (token_row env 1 0) (record inside { calls = inside.calls + 1 })).0
login_then_refresh_example =
    login_then_refresh env "ana@example.com" "password1" none start {user = ana} {access = "jwt"}
      {raw = "new token"} {t = inside} login_returned (omega (arith, login_in_time))

logout_user_ends_example :
    ((logout_user env "refresh" 1 none start).0 ≡ ok tt)
    × ((after_logout env "refresh" 1 none start).committed
        ≡ (after_logout env "refresh" 1 none start).db)
    × (refresh_tokens env "refresh" (after_logout env "refresh" 1 none start)
        ≡ (err (domain invalid_credentials), after_logout env "refresh" 1 none start))
logout_user_ends_example = logout_user_ends env "refresh" 1 none start

abbrev reset : Session
reset = (confirm_password_reset env "reset" "password2" none start).1

reset_returned : confirm_password_reset env "reset" "password2" none start ≡ (ok tt, reset)
unfolding confirm_password_reset ResetTokens.get_by_hash hash_token Users.get_by_id hash_password
    Users.update ResetTokens.mark_used AuditLogs.log
reset_returned = refl

confirm_password_reset_once_example :
    confirm_password_reset env "reset" "password3" none reset
    ≡ (err (domain invalid_credentials), reset)
confirm_password_reset_once_example =
    confirm_password_reset_once env "reset" "password2" "password3" none none start {u = tt}
      {t = reset} reset_returned

confirm_password_reset_sets_example :
    (stored : PasswordResetToken) × (user : User) × (select_one
        (ResetTokens.has_hash "reset")
        bank.password_reset_tokens
      ≡ some stored)
    × (select_one (Users.has_id stored.user_id) reset.db.users ≡ some user)
    × (env.verify "password2" user.password_hash ≡ true)
    × (reset.db.refresh_tokens ≡ bank.refresh_tokens)
    × (reset.committed ≡ reset.db)
confirm_password_reset_sets_example =
    confirm_password_reset_sets env "reset" (λ n p. eq_refl p) "password2" none start {u = tt}
      {t = reset} reset_returned

abbrev asked : Session
asked = (request_password_reset env "ana@example.com" none start).1

request_returned :
    request_password_reset env "ana@example.com" none start ≡ (ok (none, false), asked)
unfolding request_password_reset Users.get_by_email ResetTokens.create ResetTokens.flush_row
    hash_token AuditLogs.log is_production lower
request_returned = refl

abbrev nothing : Option String × Bool
nothing = (none, false)

request_password_reset_hides_example : nothing ≡ (none, false)
unfolding is_production lower
request_password_reset_hides_example =
    request_password_reset_hides env "ana@example.com" none start {out = nothing} {t = asked} refl
      request_returned
