-- ===== src/Concurrency/Keeping.antt =====
-- The last step of a request leaves what the other requests have locked and checked.
use mathlib.Core.Path.{ap, ◌∙◌}
use nexobank_backend.Base.{
  ℕ, ◌+ℤ◌, ◌-ℤ◌, ◌==◌, ◌≡◌, ◌≢◌, refl, inl, inr, some, List, [], arith, select_one, Bool-cases,
}
use nexobank_backend.Models.{Account}
use nexobank_backend.Session.{Env, Db, Session, with_session}
use nexobank_backend.Ledger.{IsValid}
use nexobank_backend.Repositories.Accounts.{has_id}
use nexobank_backend.Transfers.{Transfer}
use nexobank_backend.Transfers.Outcome.{applied}
use nexobank_backend.Transfers.Success.{Accepts}
use nexobank_backend.Transfers.Accounting.{source_after, target_after, others_after}
use nexobank_backend.Concurrency.{
  Worker, asked, keyed, locking, answered, Bank, released, settle, finish,
}
use nexobank_backend.Concurrency.Settling.{s, db', Settles, settled, accepted}
use nexobank_backend.Concurrency.Copies.{Holding, Fits, Holds, Coherent, put_all}

module _ (env : Env) (i : ℕ) (p : Transfer) (rows : List Account) (st : Bank) (v : IsValid st.db)
    (c : Coherent st) (h : Holding st.db st.lock i p [] rows) where
  abbrev after : Db
  after = db' env i p rows st v c h

  abbrev before : Session
  before = s env i p rows st v c h

  -- A row that another request has locked, and the owner of any account, stay.
  abbrev Kept : Type 0
  Kept =
      ((k j : ℕ) (a : Account)
        → j ≢ i
        → st.lock k ≡ some j
        → select_one (has_id k) st.db.accounts ≡ some a
        → select_one (has_id k) after.accounts ≡ some a)
      × ((k : ℕ) (a : Account)
          → select_one (has_id k) st.db.accounts ≡ some a
          → (b : Account) × (select_one (has_id k) after.accounts ≡ some b)
            × (b.user_id ≡ a.user_id))

  module _ (source target : Account) (x : Settles env p rows before source target) where
    abbrev accepts : Accepts env p source target before
    accepts = accepted env i p rows st v c h source target x

    finish_db : after ≡ (applied env p source target before).db
    unfolding finish with_session
    finish_db = ground (arith, x.outcome)

    others_kept :
        (k : ℕ)
        → k ≢ p.from_account_id
        → k ≢ p.to_account_id
        → select_one (has_id k) after.accounts ≡ select_one (has_id k) st.db.accounts
    others_kept k nf nt =
        ap (λ d. select_one (has_id k) d.accounts) finish_db
        ∙ others_after env p source target before accepts v.account_ids k nf nt

    owners_kept :
        (k : ℕ) (a : Account)
        → select_one (has_id k) st.db.accounts ≡ some a
        → (b : Account) × (select_one (has_id k) after.accounts ≡ some b) × (b.user_id ≡ a.user_id)
    owners_kept k a e = elim (Bool-cases (k == p.from_account_id)) [
      | inl f ↦ (
        record source { balance = source.balance -ℤ p.amount },
        ap (λ d. select_one (has_id k) d.accounts) finish_db
            ∙ ground (arith, f, source_after env p source target before accepts v.account_ids),
        ground (arith, f, accepts.source_found),
      )
      | inr nf ↦ elim (Bool-cases (k == p.to_account_id)) [
        | inl f ↦ (
          record target { balance = target.balance +ℤ p.amount },
          ap (λ d. select_one (has_id k) d.accounts) finish_db
              ∙ ground (arith, f, target_after env p source target before accepts v.account_ids),
          ground (arith, f, accepts.target_found),
        )
        | inr nt ↦ (a, others_kept k (ground (arith, nf)) (ground (arith, nt)) ∙ e, refl)
      ]
    ]

    locked_kept :
        (k j : ℕ)
        → j ≢ i
        → st.lock k ≡ some j
        → select_one (has_id k) after.accounts ≡ select_one (has_id k) st.db.accounts
    locked_kept k j ne m =
        others_kept k (λ f. ne (ground (arith, f, h.mine p.from_account_id source x.source_locked)))
          (λ f. ne (ground (arith, f, h.mine p.to_account_id target x.target_locked)))

  kept : Kept
  unfolding finish with_session
  kept = elim (settled env p rows before) [
    | inl (e, raised, same) ↦
        (λ k j a ne m e. ground (arith, same), λ k a e. (a, ground (arith, same), refl))
    | inr (source, target, x) ↦ (
      λ k j a ne m e. locked_kept source target x k j ne m ∙ e,
      λ k a e. owners_kept source target x k a e,
    )
  ]

  -- The other requests stay where they are.
  Fits-finish :
      (j : ℕ) (w : Worker)
      → j ≢ i
      → Fits st.db st.lock j w
      → Fits after (λ k. released i (st.lock k)) j w
  Fits-finish j (asked q) ne f = tt
  Fits-finish j (keyed q) ne f = tt
  Fits-finish j (answered r) ne f = tt
  Fits-finish j (locking q ks held) ne f = record {
    inputs = f.inputs;
    owned =
        let (a, found, same) = f.owned in
        let (b, found', same') = kept.1 q.from_account_id a found in (b, found', same' ∙ same);
    current = λ k a e. kept.0 k j a ne (f.mine k a e) (f.current k a e);
    mine = λ k a e. ground (arith, f.mine k a e, ne);
    in_order = f.in_order;
  }

  pub finish-Coherent : Coherent (finish env i p rows st)
  unfolding finish with_session
  finish-Coherent = record {
    fits =
        put_all (Fits after (λ k. released i (st.lock k))) i
          (answered (with_session (settle env p rows) st.db st.calls).0) st.workers tt
          (λ j ne. Fits-finish j (st.workers j) ne (c.fits j));
    held = λ k.
        put_all (λ j w. released i (st.lock k) ≡ some j → Holds k w) i
          (answered (with_session (settle env p rows) st.db st.calls).0) st.workers
          (λ e. absurd (ground (arith, e))) (λ j ne e. c.held k j (ground (arith, e)));
  }
