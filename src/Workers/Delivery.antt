-- ===== src/Workers/Delivery.antt =====
-- Who hears of a transfer.
use mathlib.Core.Path.{subst}
use nexobank_backend.Base.{
  ℕ, zero, suc, ◌+◌, ◌≤◌, ◌==◌, ◌≡◌, ◌≢◌, refl, ◌⊎◌, inl, inr, ◌||◌, true, false, Option, none,
  some, List, [], ◌∷◌, ◌++◌, arith, str_eq, eq_iff, select_one, Option-cases, Bool-cases,
}
use nexobank_backend.Models.{Account}
use nexobank_backend.Session.{Env, Db}
use nexobank_backend.Repositories.Accounts.{has_id}
use nexobank_backend.Workers.Notifying.{
  Notice, Publication, Fault, no_fault, at_sender, at_lookup, at_receiver, at_close, sent, received,
  owner_text, to_receiver, finish_attempt, unless_earlier, attempt, run_task,
  send_transaction_notification,
}

abbrev pub All : (Publication → Type 0) → List Publication → Type 0
All P [] = Unit
All P (p ∷ rest) = P p × All P rest

All-append :
    (P : Publication → Type 0) (a b : List Publication) → All P a → All P b → All P (a ++ b)
All-append P [] b x y = y
All-append P (p ∷ a) b x y = (x.0, All-append P a b x.1 y)

append_assoc : (a b c : List Publication) → (a ++ b) ++ c ≡ a ++ (b ++ c)
append_assoc [] b c = refl
append_assoc (p ∷ a) b c = ground (arith, append_assoc a b c)

module _ (env : Env) (n : Notice) where
  -- `transfer_sent` for the sender, or `transfer_received` for the owner of the receiving account, who
  -- is not the sender
  abbrev pub Addressed : (ℕ → Db) → Publication → Type 0
  Addressed dbs p =
      (p ≡ sent n)
      ⊎ ((i : ℕ) × (k : ℕ) × (a : Account) × (env.parse_uuid n.receiver_account_id ≡ some k)
          × (select_one (has_id k) (dbs i).accounts ≡ some a)
          × (env.uuid_text a.user_id ≢ n.sender_user_id)
          × (p ≡ received (env.uuid_text a.user_id) n))

  -- what an attempt on a database publishes that comes to its end
  abbrev pub full : Db → ℕ → List Publication
  full db k = sent n ∷ to_receiver n (owner_text env (select_one (has_id k) db.accounts))

  to_receiver-Addressed :
      (dbs : ℕ → Db) (i k : ℕ)
      → env.parse_uuid n.receiver_account_id ≡ some k
      → (o : Option Account) → select_one (has_id k) (dbs i).accounts ≡ o
      → All (Addressed dbs) (to_receiver n (owner_text env o))
  to_receiver-Addressed dbs i k e none f = tt
  to_receiver-Addressed dbs i k e (some a) f =
      elim (Bool-cases (
        str_eq (env.uuid_text a.user_id) "" || str_eq (env.uuid_text a.user_id) n.sender_user_id)) [
          | inl silent ↦ subst (All (Addressed dbs)) {x = []} (ground (arith, silent)) tt
          | inr heard ↦
              subst (All (Addressed dbs)) {x = received (env.uuid_text a.user_id) n ∷ []}
                (ground (arith, heard)) (inr (i, k, a, e, f, other heard, refl), tt)
        ]
    where
      other :
          (str_eq (env.uuid_text a.user_id) "" || str_eq (env.uuid_text a.user_id) n.sender_user_id)
            ≡ false
          → env.uuid_text a.user_id ≢ n.sender_user_id
      other heard same = ground (arith, eq_iff (env.uuid_text a.user_id) n.sender_user_id)

  finish_attempt-Addressed :
      (dbs : ℕ → Db) (more : List Publication) (fault : Fault)
      → All (Addressed dbs) more
      → All (Addressed dbs) (finish_attempt n more fault).0
  finish_attempt-Addressed dbs more no_fault a = (inl refl, a)
  finish_attempt-Addressed dbs more at_close a = (inl refl, a)
  finish_attempt-Addressed dbs [] at_receiver a = (inl refl, tt)
  finish_attempt-Addressed dbs (p ∷ more) at_receiver a = (inl refl, tt)
  finish_attempt-Addressed dbs more at_lookup a = (inl refl, tt)
  finish_attempt-Addressed dbs more at_sender a = tt

  attempt-Addressed :
      (dbs : ℕ → Db) (i : ℕ) (fault : Fault) → All (Addressed dbs) (attempt env n (dbs i) fault).0
  unfolding attempt
  attempt-Addressed dbs i fault = elim (Option-cases (env.parse_uuid n.receiver_account_id)) [
    | inl e ↦
        subst (All (Addressed dbs)) {x = (finish_attempt n [] (unless_earlier fault)).0}
          (ground (arith, e)) (finish_attempt-Addressed dbs [] (unless_earlier fault) tt)
    | inr (k, e) ↦
        subst (All (Addressed dbs))
          {x = (finish_attempt n
            (to_receiver n (owner_text env (select_one (has_id k) (dbs i).accounts))) fault).0}
          (ground (arith, e))
          (finish_attempt-Addressed dbs
            (to_receiver n (owner_text env (select_one (has_id k) (dbs i).accounts))) fault
            (to_receiver-Addressed dbs i k e (select_one (has_id k) (dbs i).accounts) refl))
  ]

  run_task-Addressed :
      (left i : ℕ) (dbs : ℕ → Db) (faults : ℕ → Fault)
      → All (Addressed dbs) (run_task env n left i dbs faults).0
  unfolding run_task
  run_task-Addressed zero i dbs faults = attempt-Addressed dbs i (faults i)
  run_task-Addressed (suc left) i dbs faults =
      elim (Bool-cases (attempt env n (dbs i) (faults i)).1) [
        | inl fine ↦
            subst (All (Addressed dbs)) {x = (attempt env n (dbs i) (faults i)).0}
              (ground (arith, fine)) (attempt-Addressed dbs i (faults i))
        | inr failed ↦
            subst (All (Addressed dbs))
              {x = (attempt env n (dbs i) (faults i)).0
                ++ (run_task env n left (i + 1) dbs faults).0}
              (ground (arith, failed))
              (All-append (Addressed dbs) (attempt env n (dbs i) (faults i)).0
                (run_task env n left (i + 1) dbs faults).0 (attempt-Addressed dbs i (faults i))
                (run_task-Addressed left (i + 1) dbs faults))
      ]

  -- The publications of a run that ends well close with those of a whole attempt.
  abbrev pub EndsFull : (ℕ → Db) → List Publication → Type 0
  EndsFull dbs published =
      (earlier : List Publication) × (i : ℕ) × (k : ℕ) × (env.parse_uuid n.receiver_account_id
        ≡ some k)
      × (published ≡ earlier ++ full (dbs i) k)

  attempt-EndsFull :
      (dbs : ℕ → Db) (i : ℕ) (fault : Fault)
      → (attempt env n (dbs i) fault).1 ≡ true
      → EndsFull dbs (attempt env n (dbs i) fault).0
  unfolding attempt
  attempt-EndsFull dbs i fault fine = elim (Option-cases (env.parse_uuid n.receiver_account_id)) [
    | inl e ↦ absurd (ground (arith, e))
    | inr (k, e) ↦ ([], i, k, e, ground (arith, e))
  ]

  run_task-EndsFull :
      (left i : ℕ) (dbs : ℕ → Db) (faults : ℕ → Fault)
      → (run_task env n left i dbs faults).2 ≡ true
      → EndsFull dbs (run_task env n left i dbs faults).0
  unfolding run_task
  run_task-EndsFull zero i dbs faults fine = attempt-EndsFull dbs i (faults i) fine
  run_task-EndsFull (suc left) i dbs faults ends =
      elim (Bool-cases (attempt env n (dbs i) (faults i)).1) [
        | inl fine ↦
            subst (EndsFull dbs) {x = (attempt env n (dbs i) (faults i)).0} (ground (arith, fine))
              (attempt-EndsFull dbs i (faults i) fine)
        | inr failed ↦
            let (earlier, j, k, e, same) =
              run_task-EndsFull left (i + 1) dbs faults (ground (arith, failed)) in
            (
              (attempt env n (dbs i) (faults i)).0 ++ earlier,
              j,
              k,
              e,
              ground (
                arith,
                failed,
                same,
                append_assoc (attempt env n (dbs i) (faults i)).0 earlier (full (dbs j) k),
              ),
            )
      ]

  attempt_ends :
      (db : Db) (k : ℕ)
      → env.parse_uuid n.receiver_account_id ≡ some k
      → (attempt env n db no_fault).1 ≡ true
  unfolding attempt
  attempt_ends db k e = ground (arith, e)

  run_task_ends :
      (left i j k : ℕ) (dbs : ℕ → Db) (faults : ℕ → Fault)
      → env.parse_uuid n.receiver_account_id ≡ some k
      → i ≤ j
      → j ≤ i + left
      → faults j ≡ no_fault
      → (run_task env n left i dbs faults).2 ≡ true
  unfolding run_task
  run_task_ends zero i j k dbs faults e low high f =
      subst (λ m. (attempt env n (dbs m) (faults m)).1 ≡ true) {x = j} (omega arith)
        (ground (arith, f, attempt_ends (dbs j) k e))
  run_task_ends (suc left) i j k dbs faults e low high f =
      elim (Bool-cases (attempt env n (dbs i) (faults i)).1) [
        | inl fine ↦ ground (arith, fine)
        | inr failed ↦ elim (Bool-cases (i == j)) [
          | inl here ↦ absurd (ground (arith, here, failed, f, attempt_ends (dbs j) k e))
          | inr past ↦ ground (
            arith,
            failed,
            run_task_ends left (i + 1) j k dbs faults e (ground (arith, past)) (omega arith) f,
          )
        ]
      ]

-- A notification task for an account id that is a UUID, one of whose four attempts meets no fault,
-- ends well, however the other attempts fail. It publishes only to the sender and to the owner of the
-- receiving account, where that is another user, and to each the message for that side; the attempt
-- that ended told the sender and, if the receiving account is there, its owner.
pub send_transaction_notification_delivers :
    (env : Env) (n : Notice) (dbs : ℕ → Db) (faults : ℕ → Fault) (j k : ℕ)
    → env.parse_uuid n.receiver_account_id ≡ some k
    → j ≤ 3
    → faults j ≡ no_fault
    → ((send_transaction_notification env n dbs faults).2 ≡ true)
      × All (Addressed env n dbs) (send_transaction_notification env n dbs faults).0
      × EndsFull env n dbs (send_transaction_notification env n dbs faults).0
unfolding send_transaction_notification
send_transaction_notification_delivers env n dbs faults j k e few f =
    let ends = run_task_ends env n 3 0 j k dbs faults e (omega arith) (omega arith) f in
    (ends, run_task-Addressed env n 3 0 dbs faults, run_task-EndsFull env n 3 0 dbs faults ends)
