-- ===== src/Concurrency/Histories.antt =====
-- The transfers that were answered, as if they had run one after the other.
use mathlib.Core.Path.{subst, sym, ap, ◌∙◌}
use nexobank_backend.Base.{
  ℕ, ◌≡◌, ◌==◌, ◌⊎◌, inl, inr, Option, none, some, List, [], ◌∷◌, arith, if◌then◌else◌,
}
use nexobank_backend.Models.{Transaction}
use nexobank_backend.Session.{Env, Db, Result, ok, err, with_session}
use nexobank_backend.Ledger.{IsValid}
use nexobank_backend.Transfers.{Transfer}
use nexobank_backend.Requests.{create_transfer, to_transfer, serve}
use nexobank_backend.Requests.Reaching.{serve-IsValid}
use nexobank_backend.Concurrency.{Worker, asked, keyed, locking, answered, put}

-- the answers so far, the latest first
abbrev pub History : Type 0
History = List (ℕ × Transaction)

abbrev pub answer_of : ℕ → History → Option Transaction
answer_of i [] = none
answer_of i ((j, tx) ∷ h) = if i == j then some tx else answer_of i h

abbrev pub success : Result Transaction → Option Transaction
success (ok tx) = some tx
success (err e) = none

-- the row that a request has been answered with
abbrev pub outcome : Worker → Option Transaction
outcome (asked p) = none
outcome (keyed p) = none
outcome (locking p ks rows) = none
outcome (answered r) = success r

-- One transfer after the other, each on the database that the one before left, none of them twice.
pub data Serial (env : Env) (requests : ℕ → Transfer) (start : Db) : History → Db → Type 0 where
  nothing_yet : Serial env requests start [] start
  then_runs :
      (h : History) (db next : Db) (i calls calls' : ℕ) (tx : Transaction)
      → Serial env requests start h db
      → answer_of i h ≡ none
      → with_session (create_transfer env (requests i)) db calls ≡ (ok tx, next, calls')
      → Serial env requests start ((i, tx) ∷ h) next

module _ (env : Env) (requests : ℕ → Transfer) (start : Db) where
  pub Serial-IsValid :
      (h : History) (db : Db) → IsValid start → Serial env requests start h db → IsValid db
  unfolding serve
  Serial-IsValid _ _ v nothing_yet = v
  Serial-IsValid _ _ v (then_runs h db next i calls calls' tx s new run) =
      subst IsValid (ap (λ r. r.1) run)
        (serve-IsValid env (to_transfer (requests i)) db calls tt (Serial-IsValid h db v s))

  -- What a step of the request `i` that leads to the phase `w` may do to the database.
  abbrev pub Effect : ℕ → Worker → Db → Db → Type 0
  Effect i w db next =
      ((outcome w ≡ none) × (next ≡ db))
      ⊎ ((tx : Transaction) × (calls : ℕ) × (calls' : ℕ) × (outcome w ≡ some tx)
          × (with_session (create_transfer env (requests i)) db calls ≡ (ok tx, next, calls')))

  -- The answers agree with a serial run that leads to the database.
  abbrev pub Agrees : Db → (ℕ → Worker) → Type 0
  Agrees db workers =
      (h : History) × Serial env requests start h db
      × ((j : ℕ) → answer_of j h ≡ outcome (workers j))

  pub Agrees-step :
      (i : ℕ) (w : Worker) (db next : Db) (workers : ℕ → Worker)
      → outcome (workers i) ≡ none
      → Effect i w db next
      → Agrees db workers
      → Agrees next (put i w workers)
  Agrees-step i w db next workers open_yet (inl (none_now, same)) (h, s, a) =
      (h, subst (Serial env requests start h) (sym same) s, λ j. ground (arith, a j, a i))
  Agrees-step i w db next workers open_yet (inr (tx, calls, calls', now, run)) (h, s, a) = (
    (i, tx) ∷ h,
    then_runs h db next i calls calls' tx s (a i ∙ open_yet) run,
    λ j. ground (arith, a j),
  )
