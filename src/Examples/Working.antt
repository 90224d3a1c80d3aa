-- ===== src/Examples/Working.antt =====
-- The tasks and a socket on the small bank.
use nexobank_backend.Base.{
  ℕ, ◌≤◌, ◌≡◌, ◌⊎◌, ◌==◌, refl, true, none, some, List, [], ◌∷◌, arith, select_one, IsUnique,
  if◌then◌else◌,
}
use nexobank_backend.Session.{err, domain, invalid_credentials}
use nexobank_backend.Repositories.RefreshTokens.{has_hash}
use nexobank_backend.Auth.{refresh_tokens}
use nexobank_backend.Workers.Cleaning.{same_hash, cleaned, cleanup_keeps_sessions}
use nexobank_backend.Workers.Notifying.{
  Notice, Fault, no_fault, at_receiver, login_alert, user_channel, send_transaction_notification,
}
use nexobank_backend.Workers.Delivery.{
  All, Addressed, EndsFull, send_transaction_notification_delivers,
}
use nexobank_backend.Routers.Socket.{Event, published, client_sends, client_leaves, Socket}
use nexobank_backend.Scenario.{env, bank, start, tally, length_text-tally}

one_token : IsUnique same_hash bank.refresh_tokens
one_token = (refl, tt)

soon : env.now start.calls ≤ env.now 5
soon = omega arith

cleanup_keeps_sessions_example :
    ((cleaned env start).committed
      ≡ record bank { refresh_tokens = (cleaned env start).db.refresh_tokens })
    × ((select_one (has_hash (env.sha256_hex "refresh")) (cleaned env start).db.refresh_tokens
          ≡ select_one (has_hash (env.sha256_hex "refresh")) bank.refresh_tokens)
        ⊎ (((refresh_tokens env "refresh" (record start { calls = 5 })).0
              ≡ err (domain invalid_credentials))
            × ((refresh_tokens env "refresh" (record (cleaned env start) { calls = 5 })).0
                ≡ err (domain invalid_credentials))))
cleanup_keeps_sessions_example = cleanup_keeps_sessions env start one_token "refresh" 5 soon

-- to the account 20, which is Ben's
abbrev notice : Notice
notice = record {
  sender_user_id = "x";
  receiver_account_id = tally 20;
  amount = "12.30";
  currency = "MXN";
  tx_id = "tx";
  description = none;
}

-- the first attempt fails between its two publications
abbrev flaky : ℕ → Fault
flaky i = if i == 0 then at_receiver else no_fault

receiver_parses : env.parse_uuid notice.receiver_account_id ≡ some 20
receiver_parses = ground (arith, length_text-tally 20)

send_transaction_notification_delivers_example :
    ((send_transaction_notification env notice (λ i. bank) flaky).2 ≡ true)
    × All
        (Addressed env notice (λ i. bank))
        (send_transaction_notification env notice (λ i. bank) flaky).0
    × EndsFull env notice (λ i. bank) (send_transaction_notification env notice (λ i. bank) flaky).0
send_transaction_notification_delivers_example =
    send_transaction_notification_delivers env notice (λ i. bank) flaky 1 20 receiver_parses
      (omega arith) refl

abbrev events : List Event
events =
    published (user_channel (tally 1), login_alert "10.0.0.1" "noon")
    ∷ client_sends (some (some "ping"))
    ∷ client_leaves
    ∷ []
