-- ===== src/Workers/Notifying.antt =====
-- app/workers/notification_tasks.py: what is published, and the retries.
use nexobank_backend.Base.{
  ℕ, zero, suc, ◌+◌, ◌*◌, ◌^◌, String, ◌<>◌, Bool, true, false, ◌||◌, Option, none, some, List, [],
  ◌∷◌, ◌++◌, str_eq, select_one, if◌then◌else◌,
}
use nexobank_backend.Models.{Account}
use nexobank_backend.Session.{Env, Db}
use nexobank_backend.Repositories.Accounts.{has_id}

-- `f"{CHANNEL_PREFIX}{user_id}"`, also `user_channel` of app/api/v1/routers/websockets.py
unfoldable pub user_channel : String → String
user_channel user_id = "nexobank:notifications:user:" <> user_id

-- the arguments of `send_transaction_notification_task`
pub record Notice : Type 0 where
  pub sender_user_id : String
  pub receiver_account_id : String
  pub amount : String
  pub currency : String
  pub tx_id : String
  pub description : Option String

-- the payloads, before they are printed
pub data Message : Type 0 where
  transfer_sent transfer_received : Notice → Message
  login_alert : String → String → Message

-- a channel and what is published on it
abbrev pub Publication : Type 0
Publication = String × Message

-- The call of an attempt that raises, if one does: Redis for the sender, the database, Redis for the
-- receiver, or the closing of the connection.
pub data Fault : Type 0 where
  no_fault at_sender at_lookup at_receiver at_close : Fault

-- what an attempt published, and whether it came to its end
abbrev pub Attempt : Type 0
Attempt = List Publication × Bool

abbrev pub sent : Notice → Publication
sent n = (user_channel n.sender_user_id, transfer_sent n)

abbrev pub received : String → Notice → Publication
received user_id n = (user_channel user_id, transfer_received n)

abbrev pub owner_text : Env → Option Account → Option String
owner_text env none = none
owner_text env (some a) = some (env.uuid_text a.user_id)

-- the publication for the receiver: none without an account, and none for the sender again
abbrev pub to_receiver : Notice → Option String → List Publication
to_receiver n none = []
to_receiver n (some user_id) =
    if str_eq user_id "" || str_eq user_id n.sender_user_id then [] else received user_id n ∷ []

-- from the second publication on
abbrev pub finish_attempt : Notice → List Publication → Fault → Attempt
finish_attempt n more no_fault = (sent n ∷ more, true)
finish_attempt n more at_close = (sent n ∷ more, false)
finish_attempt n [] at_receiver = (sent n ∷ [], true)
finish_attempt n (p ∷ more) at_receiver = (sent n ∷ [], false)
finish_attempt n more at_lookup = (sent n ∷ [], false)
finish_attempt n more at_sender = ([], false)

-- a text that is no UUID makes the lookup raise
abbrev pub unless_earlier : Fault → Fault
unless_earlier at_sender = at_sender
unless_earlier no_fault = at_lookup
unless_earlier at_lookup = at_lookup
unless_earlier at_receiver = at_lookup
unless_earlier at_close = at_lookup

module _ (env : Env) (n : Notice) where
  -- one attempt, on the database as it is then
  unfoldable pub attempt : Db → Fault → Attempt
  attempt db fault = elim (env.parse_uuid n.receiver_account_id) [
    | none ↦ finish_attempt n [] (unless_earlier fault)
    | some k ↦
        finish_attempt n (to_receiver n (owner_text env (select_one (has_id k) db.accounts))) fault
  ]

  -- The attempts from the `i`-th on, with the retries that are left: what they publish, the delays
  -- before each retry in seconds, and whether one succeeded.
  unfoldable pub run_task : ℕ → ℕ → (ℕ → Db) → (ℕ → Fault) → List Publication × List ℕ × Bool
  run_task zero i dbs faults =
      let (published, fine) = attempt (dbs i) (faults i) in (published, [], fine)
  run_task (suc left) i dbs faults =
      let (published, fine) = attempt (dbs i) (faults i) in
      let (later, delays, ends) = run_task left (i + 1) dbs faults in
      if fine then (published, [], true) else (published ++ later, 2 ^ i * 30 ∷ delays, ends)

-- `send_transaction_notification_task`, with its three retries
unfoldable pub send_transaction_notification :
    Env → Notice → (ℕ → Db) → (ℕ → Fault) → List Publication × List ℕ × Bool
send_transaction_notification env n dbs faults = run_task env n 3 0 dbs faults

-- `send_login_alert_task`: what raises is dropped
unfoldable pub send_login_alert : String → String → String → Bool → List Publication
send_login_alert user_id ip_address timestamp raises =
    if raises then [] else (user_channel user_id, login_alert ip_address timestamp) ∷ []
