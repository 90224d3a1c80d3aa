-- ===== src/Routers/Queueing.antt =====
-- The task that `create_transfer` of app/api/v1/routers/transfers.py queues after its commit, and what
-- the task then publishes. `str` of an amount is a parameter.
use nexobank_backend.Models.{Host}
use nexobank_backend.Base.{refl, ℤ, String, Option, some, ◌∷◌, true, ◌≡◌, arith, select_one}
use nexobank_backend.Models.{Account, Transaction, User}
use nexobank_backend.Session.{Env, Session, Result, ok, err, Action, pure, ◌>>=◌}
use nexobank_backend.Dependencies.{get_current_active_user}
use nexobank_backend.Schemas.{
  TransferRequest, validate_transfer, TransactionResponse, transaction_response,
}
use nexobank_backend.Requests.{create_transfer}
use nexobank_backend.Routers.{post_transfer}
use nexobank_backend.Repositories.Accounts.{has_id}
use nexobank_backend.Transfers.{Transfer}
use nexobank_backend.Workers.Notifying.{Notice, no_fault, sent, to_receiver, attempt}

-- the arguments of `send_transaction_notification_task.delay`
unfoldable pub queued : Env → (ℤ → String) → Transfer → Transaction → Notice
queued env str p tx_out = record {
  sender_user_id = env.uuid_text p.requesting_user_id;
  receiver_account_id = env.uuid_text p.to_account_id;
  amount = str p.amount;
  currency = p.currency;
  tx_id = env.uuid_text tx_out.id;
  description = p.description;
}

-- `create_transfer` with its answer and the task that it queues: one for every transfer that returns,
-- applied or replayed, and none for one that raises.
unfoldable pub post_and_queue :
    Env
    → (ℤ → String)
    → String
    → TransferRequest
    → Option Host
    → Action (TransactionResponse × Notice)
post_and_queue env str token body ip_address = do
  user ← get_current_active_user env token
  p ← validate_transfer body user.id ip_address
  tx ← create_transfer env p
  pure (transaction_response tx, queued env str p tx)

abbrev pub answer_of : Result (TransactionResponse × Notice) → Result TransactionResponse
answer_of (ok r) = ok r.0
answer_of (err e) = err e

-- Apart from the task, the route is the one of Routers.
post_and_queue-answer :
    (env : Env) (str : ℤ → String) (token : String) (body : TransferRequest) (ip : Option Host)
    (s : Session)
    → post_transfer env token body ip s ≡ (
      answer_of (post_and_queue env str token body ip s).0,
      (post_and_queue env str token body ip s).1,
    )
unfolding post_and_queue post_transfer
post_and_queue-answer env str token body ip s = go (get_current_active_user env token s) refl
  where
    go :
        (r : Result User × Session)
        → get_current_active_user env token s ≡ r
        → post_transfer env token body ip s ≡ (
          answer_of (post_and_queue env str token body ip s).0,
          (post_and_queue env str token body ip s).1,
        )
    go (err e, t) h = ground (arith, h)
    go (ok user, t) h = checked (validate_transfer body user.id ip t) refl
      where
        checked :
            (q : Result Transfer × Session)
            → validate_transfer body user.id ip t ≡ q
            → post_transfer env token body ip s ≡ (
              answer_of (post_and_queue env str token body ip s).0,
              (post_and_queue env str token body ip s).1,
            )
        checked (err e, u) k = ground (arith, h, k)
        checked (ok p, u) k = moved (create_transfer env p u) refl
          where
            moved :
                (q : Result Transaction × Session)
                → create_transfer env p u ≡ q
                → post_transfer env token body ip s ≡ (
                  answer_of (post_and_queue env str token body ip s).0,
                  (post_and_queue env str token body ip s).1,
                )
            moved (err e, w) m = ground (arith, h, k, m)
            moved (ok tx, w) m = ground (arith, h, k, m)

module _ (env : Env) (str : ℤ → String) where
  -- Where the text of a UUID parses to it and the receiving account is there: the task tells the user
  -- who asked for the transfer, and the owner of that account if it is another user.
  pub attempt-queued :
      (p : Transfer) (tx_out : Transaction) (s : Session) (target : Account)
      → env.parse_uuid (env.uuid_text p.to_account_id) ≡ some p.to_account_id
      → select_one (has_id p.to_account_id) s.db.accounts ≡ some target
      → attempt env (queued env str p tx_out) s.db no_fault ≡ (
        sent (queued env str p tx_out)
            ∷ to_receiver (queued env str p tx_out) (some (env.uuid_text target.user_id)),
        true,
      )
  unfolding queued attempt
  attempt-queued p tx_out s target parses found = ground (arith, parses, found)
