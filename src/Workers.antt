-- ===== src/Workers.antt =====
-- app/workers/: the Celery tasks. Redis, the task queue and the clock are not under app/: a publish is
-- an entry of a list, and what may fail in a task is an argument.
pub mod Cleaning
pub mod Notifying
pub mod Delivery
use nexobank_backend.Base.{ℕ, ◌+◌, ◌/◌, ◌%◌, zero, suc, String, Bool, true, List, [], ltb}
use nexobank_backend.Session.{Env, Action, pure, commit, ◌>>=◌, ◌>>◌}
use nexobank_backend.Repositories.RefreshTokens.{delete_expired}

-- `cleanup_expired_refresh_tokens_task`: the number of rows that it deleted
unfoldable pub cleanup_expired_refresh_tokens : Env → Action ℕ
cleanup_expired_refresh_tokens env = do count ← delete_expired env; commit; pure count

-- The answer of `evaluate_transaction_risk_task`, a placeholder that approves every transaction.
pub record RiskVerdict : Type 0 where
  pub risk_score : ℕ
  pub approved : Bool
  pub flags : List String

unfoldable pub evaluate_transaction_risk : RiskVerdict
evaluate_transaction_risk = record { risk_score = 0; approved = true; flags = [] }
