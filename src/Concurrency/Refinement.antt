-- ===== src/Concurrency/Refinement.antt =====
-- Every interleaving of transfers has the answers and the effect of a serial run.
use mathlib.Core.Path.{subst, sym}
use nexobank_backend.Base.{
  ℕ, ◌≡◌, refl, inl, inr, none, some, List, [], ◌∷◌, ◌++◌, arith, select_one, Option-cases,
}
use nexobank_backend.Models.{Account, Transaction}
use nexobank_backend.Session.{Env, Db, Result, ok, err, commit, pure, with_session, ◌>>=◌, ◌>>◌}
use nexobank_backend.Ledger.{IsValid}
use nexobank_backend.Repositories.Accounts.{has_id}
use nexobank_backend.Repositories.Transactions
use nexobank_backend.Repositories.Transactions.{has_key}
use nexobank_backend.Transfers.{Transfer, replay, execute_transfer}
use nexobank_backend.Requests.{create_transfer}
use nexobank_backend.Concurrency.{
  Worker, asked, keyed, locking, answered, Bank, put, become, take_row, check_key, check_inputs,
  settle, finish, advance, step, Interleaved, at_start, after, arrival,
}
use nexobank_backend.Concurrency.Copies.{
  Fits, Holds, Coherent, Holding, free-Coherent, check_key-Fits, check_inputs-Fits,
  take_row-Coherent, put_all,
}
use nexobank_backend.Concurrency.Settling.{finish_outcome}
use nexobank_backend.Concurrency.Keeping.{finish-Coherent}
use nexobank_backend.Concurrency.Histories.{
  outcome, Serial-IsValid, nothing_yet, Effect, Agrees, Agrees-step,
}

-- The request is the one that the phase is about.
abbrev AsksFor : Transfer → Worker → Type 0
AsksFor q (asked p) = p ≡ q
AsksFor q (keyed p) = p ≡ q
AsksFor q (locking p ks rows) = p ≡ q
AsksFor q (answered r) = Unit

module _ (env : Env) where
  abbrev replayed : Transfer → Transaction → Db → ℕ → Result Transaction × Db × ℕ
  replayed p tx = with_session (replay p tx >>= λ pair. commit >> pure pair.0)

  -- A known key is answered as the transfer alone answers it.
  replay_alone :
      (p : Transfer) (db : Db) (calls : ℕ) (tx : Transaction)
      → select_one (has_key p.idempotency_key) db.transactions ≡ some tx
      → with_session (create_transfer env p) db calls ≡ ((replayed p tx db calls).0, db, calls)
  unfolding with_session create_transfer execute_transfer replay Transactions.get_by_idempotency_key
  replay_alone p db calls tx e = ground (arith, e)

  module _ (requests : ℕ → Transfer) (start : Db) where
    check_key-Effect :
        (i : ℕ) (p : Transfer) (db : Db) (calls : ℕ)
        → p ≡ requests i
        → Effect env requests start i (check_key env p db calls) db db
    unfolding check_key
    check_key-Effect i p db calls q =
        elim (Option-cases (select_one (has_key p.idempotency_key) db.transactions)) [
          | inl e ↦ inl (ground (arith, e), refl)
          | inr (tx, e) ↦ go tx e (replayed p tx db calls).0 refl
        ]
      where
        go :
            (tx : Transaction)
            → select_one (has_key p.idempotency_key) db.transactions ≡ some tx
            → (r : Result Transaction) → (replayed p tx db calls).0 ≡ r
            → Effect env requests start i (check_key env p db calls) db db
        go tx e (ok out) k = inr (
          out,
          calls,
          calls,
          ground (arith, e, k),
          ground (arith, e, k, q, replay_alone p db calls tx e),
        )
        go tx e (err x) k = inl (ground (arith, e, k), refl)

    check_inputs-none :
        (p : Transfer) (db : Db) (calls : ℕ) → outcome (check_inputs env p db calls) ≡ none
    unfolding check_inputs
    check_inputs-none p db calls = ground arith

    check_key-AsksFor : (p : Transfer) (db : Db) (calls : ℕ) → AsksFor p (check_key env p db calls)
    unfolding check_key
    check_key-AsksFor p db calls = ground arith

    check_inputs-AsksFor :
        (p : Transfer) (db : Db) (calls : ℕ) → AsksFor p (check_inputs env p db calls)
    unfolding check_inputs
    check_inputs-AsksFor p db calls = ground arith

    -- What holds of the bank in any interleaving.
    pub record Sound (st : Bank) : Type 0 where
      pub coherent : Coherent st
      pub asking : (i : ℕ) → AsksFor (requests i) (st.workers i)
      pub agrees : Agrees env requests start st.db st.workers

    become-Sound :
        (i : ℕ) (w : Worker) (st next : Bank)
        → Sound st
        → Coherent next
        → next.workers ≡ put i w st.workers
        → AsksFor (requests i) w
        → outcome (st.workers i) ≡ none
        → Effect env requests start i w st.db next.db
        → Sound next
    become-Sound i w st next s c e a o x = record {
      coherent = c;
      asking =
          subst (λ ws. (j : ℕ) → AsksFor (requests j) (ws j)) (sym e)
            (put_all (λ j v. AsksFor (requests j) v) i w st.workers a (λ j _. s.asking j));
      agrees =
          subst (Agrees env requests start next.db) (sym e)
            (Agrees-step env requests start i w st.db next.db st.workers o x s.agrees);
    }

    take_row-Sound :
        (i : ℕ) (p : Transfer) (k : ℕ) (ks : List ℕ) (rows : List Account) (st next : Bank)
        → st.workers i ≡ locking p (k ∷ ks) rows
        → Sound st
        → Coherent next
        → p ≡ requests i
        → take_row i p k ks rows st ≡ some next
        → Sound next
    unfolding take_row
    take_row-Sound i p k ks rows st next here s c q e =
        elim (Option-cases (select_one (has_id k) st.db.accounts)) [
          | inl missing ↦
              become-Sound i (locking p ks rows) st next s c (ground (arith, missing)) q
                (ground (arith, here)) (inl (refl, ground (arith, missing)))
          | inr (a, found) ↦ elim (Option-cases (st.lock k)) [
            | inr (j, taken) ↦ absurd (ground (arith, found, taken))
            | inl free ↦
                become-Sound i (locking p ks (rows ++ a ∷ [])) st next s c
                  (ground (arith, found, free)) q (ground (arith, here))
                  (inl (refl, ground (arith, found, free)))
          ]
        ]

    module _ (v : IsValid start) where
      pub stored-IsValid : (st : Bank) → Sound st → IsValid st.db
      stored-IsValid st s =
          let (h, run, _) = s.agrees in Serial-IsValid env requests start h st.db v run

      finish-Effect :
          (i : ℕ) (p : Transfer) (rows : List Account) (st : Bank)
          → Sound st
          → Holding st.db st.lock i p [] rows
          → p ≡ requests i
          → Effect env requests start i
              (answered (with_session (settle env p rows) st.db st.calls).0)
              st.db
              (finish env i p rows st).db
      unfolding finish
      finish-Effect i p rows st s f q =
          let (r, db, calls, e, ends) =
            finish_outcome env i p rows st (stored-IsValid st s) s.coherent f in
          elim ends [
            | inl (x, failed, same) ↦ inl (ground (arith, e, failed), ground (arith, e, same))
            | inr (tx, fine, run) ↦
                inr (tx, st.calls, calls, ground (arith, e, fine), ground (arith, e, q, run))
          ]

      finish-Sound :
          (i : ℕ) (p : Transfer) (rows : List Account) (st : Bank)
          → st.workers i ≡ locking p [] rows
          → Sound st
          → Holding st.db st.lock i p [] rows
          → p ≡ requests i
          → Sound (finish env i p rows st)
      unfolding finish
      finish-Sound i p rows st here s f q =
          become-Sound i (answered (with_session (settle env p rows) st.db st.calls).0) st
            (finish env i p rows st) s
            (finish-Coherent env i p rows st (stored-IsValid st s) s.coherent f) refl tt
            (ground (arith, here)) (finish-Effect i p rows st s f q)

      advance-Sound :
          (i : ℕ) (w : Worker) (st next : Bank)
          → st.workers i ≡ w
          → Sound st
          → Fits st.db st.lock i w
          → AsksFor (requests i) w
          → advance env i w st ≡ some next
          → Sound next
      advance-Sound i (asked p) st next here s f q e =
          subst Sound {x = become i (check_key env p st.db st.calls) st} (ground (arith, e)) (
            become-Sound i (check_key env p st.db st.calls) st _ s
              (free-Coherent i (check_key env p st.db st.calls) st s.coherent
                (λ k. subst (λ w. ¬ Holds k w) (sym here) (λ x. x))
                (check_key-Fits env p st.db st.calls st.lock i))
              refl
              (subst (λ p'. AsksFor p' (check_key env p st.db st.calls)) q
                (check_key-AsksFor p st.db st.calls))
              (ground (arith, here)) (check_key-Effect i p st.db st.calls q))
      advance-Sound i (keyed p) st next here s f q e =
          subst Sound {x = become i (check_inputs env p st.db st.calls) st} (ground (arith, e)) (
            become-Sound i (check_inputs env p st.db st.calls) st _ s
              (free-Coherent i (check_inputs env p st.db st.calls) st s.coherent
                (λ k. subst (λ w. ¬ Holds k w) (sym here) (λ x. x))
                (check_inputs-Fits env p st.db st.calls st.lock i))
              refl
              (subst (λ p'. AsksFor p' (check_inputs env p st.db st.calls)) q
                (check_inputs-AsksFor p st.db st.calls))
              (ground (arith, here)) (inl (check_inputs-none p st.db st.calls, refl)))
      advance-Sound i (locking p [] rows) st next here s f q e =
          subst Sound {x = finish env i p rows st} (ground (arith, e))
            (finish-Sound i p rows st here s f q)
      advance-Sound i (locking p (k ∷ ks) rows) st next here s f q e =
          take_row-Sound i p k ks rows st next here s
            (take_row-Coherent i p k ks rows st s.coherent f
              (λ j m. subst (Holds j) here (s.coherent.held j i m)) e)
            q e
      advance-Sound i (answered x) st next here s f q e = absurd (ground (arith, e))

      pub interleaved-Sound : (begin st : Bank) → Sound begin → Interleaved env begin st → Sound st
      unfolding step
      interleaved-Sound begin _ s at_start = s
      interleaved-Sound begin _ s (after st next i h e) =
          let s' = interleaved-Sound begin st s h in
          advance-Sound i (st.workers i) st next refl s' (s'.coherent.fits i) (s'.asking i) e

    pub arrival-Sound : (calls : ℕ) → Sound (arrival start calls requests)
    arrival-Sound calls = record {
      coherent = record { fits = λ i. tt; held = λ k i e. ground arith };
      asking = λ i. refl;
      agrees = ([], nothing_yet, λ j. refl);
    }
