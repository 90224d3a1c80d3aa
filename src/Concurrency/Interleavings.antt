-- ===== src/Concurrency/Interleavings.antt =====
-- What holds of every interleaving of transfers that arrive at a valid database.
use nexobank_backend.Base.{ℕ, ◌+◌, ◌≤◌, ◌≡◌, refl, ◌≢◌, ◌==◌, arith, inl, inr, Bool-cases}
use nexobank_backend.Models.{Transaction}
use nexobank_backend.Session.{Env, Db, Result}
use nexobank_backend.Ledger.{IsValid}
use nexobank_backend.Transfers.{Transfer}
use nexobank_backend.Concurrency.{Bank, answered, Interleaved, at_start, after, arrival}
use nexobank_backend.Concurrency.Histories.{History, Serial, Serial-IsValid, answer_of, outcome}
use nexobank_backend.Concurrency.Refinement.{interleaved-Sound, arrival-Sound}
use nexobank_backend.Concurrency.Progress.{CanStep, unanswered-CanStep, rank, steps_of, step_lowers}

module _ (env : Env) (requests : ℕ → Transfer) (db : Db) (calls : ℕ) (v : IsValid db) (st : Bank)
    (run : Interleaved env (arrival db calls requests) st) where
  -- Transfers that arrive at a valid database and interleave in any way: the requests that were
  -- answered with a row, each once and in some order, run one after the other to the same stored
  -- database, and each returns there the row that it was answered with.
  pub interleaved-Serial :
      (h : History) × Serial env requests db h st.db
      × ((i : ℕ) → answer_of i h ≡ outcome (st.workers i))
  interleaved-Serial =
      (interleaved-Sound env requests db v (arrival db calls requests) st
        (arrival-Sound env requests db calls) run).agrees

  -- Transfers that arrive at a valid database and interleave in any way: the stored database is valid
  -- after every step.
  pub interleaved-IsValid : IsValid st.db
  interleaved-IsValid =
      let (h, serial, _) = interleaved-Serial in Serial-IsValid env requests db h st.db v serial

  -- Transfers that arrive at a valid database and interleave in any way: while one of them is not
  -- answered, one of them can take a step, so that the row locks never lead to a deadlock.
  pub interleaved-CanStep :
      (i : ℕ) → ((r : Result Transaction) → st.workers i ≢ answered r) → CanStep env st
  interleaved-CanStep i open_yet =
      unanswered-CanStep env st
        (interleaved-Sound env requests db v (arrival db calls requests) st
          (arrival-Sound env requests db calls) run).coherent
        i (st.workers i) refl open_yet

-- Every request takes at most five steps, whatever the others do, and a request that has taken `n`
-- has at most `5 - n` left.
pub steps_bounded :
    (env : Env) (requests : ℕ → Transfer) (db : Db) (calls : ℕ) (st : Bank)
    (run : Interleaved env (arrival db calls requests) st) (i : ℕ)
    → steps_of env i run + rank (st.workers i) ≤ 5
steps_bounded env requests db calls _ at_start i = omega arith
steps_bounded env requests db calls _ (after st next j h e) i = elim (Bool-cases (j == i)) [
  | inl same ↦
      ground
        (arith, same, (step_lowers env j st next e).0, steps_bounded env requests db calls st h i)
  | inr other ↦ ground (
    arith,
    other,
    (step_lowers env j st next e).1 i (ground (arith, other)),
    steps_bounded env requests db calls st h i,
  )
]
