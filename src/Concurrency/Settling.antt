-- ===== src/Concurrency/Settling.antt =====
-- The last step of a request against the same request alone: it commits what a transfer commits that
-- runs with nothing beside it, or nothing.
use nexobank_backend.Base.{
  ℕ, ◌≡◌, refl, ◌⊎◌, inl, inr, none, some, List, [], arith, select_one, select_one-none_of_has_row,
}
use nexobank_backend.Models.{Account, Transaction}
use nexobank_backend.Session.{Env, Db, Session, Error, Result, ok, err, with_session}
use nexobank_backend.Ledger.{IsValid}
use nexobank_backend.Repositories.Accounts.{has_id}
use nexobank_backend.Repositories.Transactions.{has_key, refusal}
use nexobank_backend.Transfers.{
  Transfer, Pair, pair_of, check_rules, apply_transfer, validate_account_active,
}
use nexobank_backend.Transfers.Guards.{RulesFit, check_rules-ok}
use nexobank_backend.Transfers.Outcome.{
  out_row, applied, HasRoom, apply_transfer-HasRoom, apply_transfer-passes,
}
use nexobank_backend.Transfers.Success.{Accepts, execute_transfer-passes}
use nexobank_backend.Requests.{create_transfer}
use nexobank_backend.Requests.Rollback.{apply_transfer-Quiet}
use nexobank_backend.Concurrency.{Bank, settle, finish}
use nexobank_backend.Concurrency.Copies.{Holding, Coherent}

check_rules-looks : (p : Transfer) (a b : Account) (s : Session) → (check_rules p a b s).1 ≡ s
unfolding check_rules validate_account_active
check_rules-looks p a b s = ground arith

module _ (env : Env) (p : Transfer) (rows : List Account) (s : Session) where
  -- Both rows were locked, the rules let them pass, and the database takes what is written.
  pub record Settles (source target : Account) : Type 0 where
    pub source_locked : select_one (has_id p.from_account_id) rows ≡ some source
    pub target_locked : select_one (has_id p.to_account_id) rows ≡ some target
    pub rules : RulesFit p source target
    pub room : HasRoom env p source target s
    pub outcome : settle env p rows s ≡ (
      ok (out_row env p s.calls),
      record (applied env p source target s) { committed = (applied env p source target s).db },
    )

  abbrev pub Settled : Type 0
  Settled =
      ((e : Error) × ((settle env p rows s).0 ≡ err e)
        × ((settle env p rows s).1.committed ≡ s.committed))
      ⊎ ((source : Account) × (target : Account) × Settles source target)

  pair_of-ok :
      {a b : Account} {t : Session}
      → pair_of p.from_account_id p.to_account_id rows s ≡ (ok (a, b), t)
      → (select_one (has_id p.from_account_id) rows ≡ some a)
        × (select_one (has_id p.to_account_id) rows ≡ some b)
        × (t ≡ s)
  pair_of-ok h = (ground arith, ground arith, ground arith)

  applying :
      (a b : Account)
      → select_one (has_id p.from_account_id) rows ≡ some a
      → select_one (has_id p.to_account_id) rows ≡ some b
      → pair_of p.from_account_id p.to_account_id rows s ≡ (ok (a, b), s)
      → check_rules p a b s ≡ (ok tt, s)
      → (r : Result Pair × Session) → apply_transfer env p a b s ≡ r
      → Settled
  unfolding settle
  applying a b ha hb l c (err x, t) e =
      inl (x, ground (arith, l, c, e), ground (arith, l, c, e, apply_transfer-Quiet env p a b s))
  applying a b ha hb l c (ok pair, t) e = inr (
    a,
    b,
    record {
      source_locked = ha;
      target_locked = hb;
      rules = (check_rules-ok p a b s c).0;
      room = room;
      outcome = ground (arith, l, c, apply_transfer-passes env p a b s room);
    },
  )
    where
      room : HasRoom env p a b s
      room = apply_transfer-HasRoom env p a b s e

  checking :
      (a b : Account)
      → select_one (has_id p.from_account_id) rows ≡ some a
      → select_one (has_id p.to_account_id) rows ≡ some b
      → pair_of p.from_account_id p.to_account_id rows s ≡ (ok (a, b), s)
      → (r : Result (Unit {0}) × Session) → check_rules p a b s ≡ r
      → Settled
  unfolding settle
  checking a b ha hb l (ok u, t) e =
      applying a b ha hb l (ground (arith, e, (check_rules-ok p a b s e).1))
        (apply_transfer env p a b s) refl
  checking a b ha hb l (err x, t) e =
      inl (x, ground (arith, l, e), ground (arith, l, e, check_rules-looks p a b s))

  settling :
      (r : Result (Account × Account) × Session)
      → pair_of p.from_account_id p.to_account_id rows s ≡ r
      → Settled
  unfolding settle
  settling (err x, t) e = inl (x, ground (arith, e), ground (arith, e))
  settling (ok (a, b), t) e =
      let (ha, hb, same) = pair_of-ok e in
      checking a b ha hb (ground (arith, e, same)) (check_rules p a b s) refl

  -- the two ways in which a request ends
  pub settled : Settled
  settled = settling (pair_of p.from_account_id p.to_account_id rows s) refl

module _ (env : Env) (i : ℕ) (p : Transfer) (rows : List Account) (st : Bank) (v : IsValid st.db)
    (c : Coherent st) (h : Holding st.db st.lock i p [] rows) where
  abbrev pub s : Session
  s = record { db = st.db; committed = st.db; calls = st.calls }

  new_of_room :
      (source target : Account)
      → HasRoom env p source target s
      → select_one (has_key p.idempotency_key) st.db.transactions ≡ none
  unfolding refusal
  new_of_room source target room =
      select_one-none_of_has_row (has_key p.idempotency_key) st.db.transactions
        (ground (arith, room.out_fits))

  pub accepted :
      (source target : Account) → Settles env p rows s source target → Accepts env p source target s
  accepted source target x = record {
    key_is_new = new_of_room source target x.room;
    inputs = h.inputs;
    source_found = h.current p.from_account_id source x.source_locked;
    target_found = h.current p.to_account_id target x.target_locked;
    owned =
        ground (arith, h.owned.1, h.owned.2, h.current p.from_account_id source x.source_locked);
    rules = x.rules;
    room = x.room;
  }

  -- the database after the last step
  abbrev pub db' : Db
  db' = (finish env i p rows st).db

  -- What the last step answers and commits: an error and nothing, or what the transfer alone returns
  -- and commits.
  pub finish_outcome :
      (r : Result Transaction) × (db : Db) × (calls : ℕ) × (with_session
          (settle env p rows)
          st.db
          st.calls
        ≡ (r, db, calls))
      × (((e : Error) × (r ≡ err e) × (db ≡ st.db))
          ⊎ ((tx : Transaction) × (r ≡ ok tx)
              × (with_session (create_transfer env p) st.db st.calls ≡ (ok tx, db, calls))))
  unfolding with_session create_transfer
  finish_outcome = (
    (settle env p rows s).0,
    (settle env p rows s).1.committed,
    (settle env p rows s).1.calls,
    refl,
    elim (settled env p rows s) [
      | inl (e, raised, same) ↦ inl (e, raised, same)
      | inr (source, target, x) ↦ inr (
        out_row env p st.calls,
        ground (arith, x.outcome),
        ground (
          arith,
          x.outcome,
          execute_transfer-passes env p s v.account_ids source target (accepted source target x),
        ),
      )
    ],
  )
