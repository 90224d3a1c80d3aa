-- ===== src/Concurrency/Copies.antt =====
-- What holds while transfers interleave: the rows that a request has locked are the committed ones
-- and no other request holds them, and locks are taken in ascending order.
use mathlib.Core.Path.{subst}
use nexobank_backend.Base.{
  ◌≢◌, ◌==◌, true, refl, ℕ, ◌<◌, ◌≡◌, Option, none, some, List, [], ◌∷◌, ◌++◌, arith, select_one,
  select_one_holds, select_one-append, Option-cases, Bool-cases, inl, inr,
}
use nexobank_backend.Models.{Account}
use nexobank_backend.Session.{Env, Db, Session, Result, ok, err, with_session, ◌>>◌}
use nexobank_backend.Session.Rules.{look-ok}
use nexobank_backend.Repositories.Accounts.{has_id}
use nexobank_backend.Transfers.{Transfer, validate_inputs, check_owner}
use nexobank_backend.Transfers.Guards.{InputsFit, OwnedBy, validate_inputs-ok, check_owner-ok}
use nexobank_backend.Concurrency.{
  Worker, asked, keyed, locking, answered, Bank, put, ascending, become, take_row, check_key,
  check_inputs,
}

-- every id of the list is greater
abbrev pub Ahead : ℕ → List ℕ → Type 0
Ahead k [] = Unit
Ahead k (j ∷ t) = (k < j) × Ahead k t

abbrev pub Ascending : List ℕ → Type 0
Ascending [] = Unit
Ascending (k ∷ t) = Ahead k t × Ascending t

abbrev pub opened : Db → Session
opened db = record { db = db; committed = db; calls = 0 }

-- What a request in its lock query has checked, and what it holds.
pub record Holding (db : Db) (lock : ℕ → Option ℕ) (i : ℕ) (p : Transfer) (ks : List ℕ)
    (rows : List Account) : Type 0 where
  pub inputs : InputsFit p
  pub owned : OwnedBy p (opened db)
  pub current :
      (k : ℕ) (a : Account)
      → select_one (has_id k) rows ≡ some a
      → select_one (has_id k) db.accounts ≡ some a
  pub mine : (k : ℕ) (a : Account) → select_one (has_id k) rows ≡ some a → lock k ≡ some i
  pub in_order : Ascending ks

abbrev pub Fits : Db → (ℕ → Option ℕ) → ℕ → Worker → Type 0
Fits db lock i (asked p) = Unit
Fits db lock i (keyed p) = Unit
Fits db lock i (locking p ks rows) = Holding db lock i p ks rows
Fits db lock i (answered r) = Unit

-- The holder of a row is in its lock query, and has greater ids left.
abbrev pub Holds : ℕ → Worker → Type 0
Holds k (asked p) = ⊥
Holds k (keyed p) = ⊥
Holds k (locking p ks rows) = Ahead k ks
Holds k (answered r) = ⊥

pub record Coherent (st : Bank) : Type 0 where
  pub fits : (i : ℕ) → Fits st.db st.lock i (st.workers i)
  pub held : (k i : ℕ) → st.lock k ≡ some i → Holds k (st.workers i)

-- What holds of the new value at `i` and of the others where they are, holds everywhere.
pub put_all :
    {A : Type 0} (P : ℕ → A → Type 0) (i : ℕ) (w : A) (f : ℕ → A)
    → P i w
    → ((j : ℕ) → j ≢ i → P j (f j))
    → (j : ℕ) → P j (put i w f j)
put_all P i w f here there j = elim (Bool-cases (j == i)) [
  | inl e ↦ subst (P j) (ground (arith, e)) (subst (λ k. P k w) (ground (arith, e)) here)
  | inr e ↦ subst (P j) (ground (arith, e)) (there j (ground (arith, e)))
]

-- One request goes on to a phase that fits.
pub become-Coherent :
    (i : ℕ) (w : Worker) (st : Bank)
    → Coherent st
    → Fits st.db st.lock i w
    → ((k : ℕ) → st.lock k ≡ some i → Holds k w)
    → Coherent (become i w st)
become-Coherent i w st c f h = record {
  fits = put_all (Fits st.db st.lock) i w st.workers f (λ j _. c.fits j);
  held =
      λ k. put_all (λ j w. st.lock k ≡ some j → Holds k w) i w st.workers (h k) (λ j _. c.held k j);
}

-- A request that is not in its lock query goes on to any phase that fits.
pub free-Coherent :
    (i : ℕ) (w : Worker) (st : Bank)
    → Coherent st
    → ((k : ℕ) → ¬ Holds k (st.workers i))
    → Fits st.db st.lock i w
    → Coherent (become i w st)
free-Coherent i w st c idle f = become-Coherent i w st c f (λ k e. absurd (idle k (c.held k i e)))

ascending-Ascending :
    (p : Transfer) → InputsFit p → Ascending (ascending p.from_account_id p.to_account_id)
unfolding ascending
ascending-Ascending p inputs = ground (arith, inputs.distinct)

pub check_key-Fits :
    (env : Env) (p : Transfer) (db : Db) (calls : ℕ) (lock : ℕ → Option ℕ) (i : ℕ)
    → Fits db lock i (check_key env p db calls)
unfolding check_key
check_key-Fits env p db calls lock i = ground arith

inputs_checked :
    (p : Transfer) (s : Session) {u : Unit {0}} {t : Session}
    → (validate_inputs p >> check_owner p) s ≡ (ok u, t)
    → InputsFit p × OwnedBy p s
inputs_checked p s h =
    let (_, inputs, h1) =
      look-ok (λ _. InputsFit p) (validate_inputs p) (λ _. check_owner p) s
        (λ _ _ e. validate_inputs-ok p s e) h in
    (inputs, (check_owner-ok p s h1).0)

pub check_inputs-Fits :
    (env : Env) (p : Transfer) (db : Db) (calls : ℕ) (lock : ℕ → Option ℕ) (i : ℕ)
    → Fits db lock i (check_inputs env p db calls)
unfolding check_inputs with_session
check_inputs-Fits env p db calls lock i = go ((validate_inputs p >> check_owner p) s) refl
  where
    s : Session
    s = record { db = db; committed = db; calls = calls }

    begun :
        {u : Unit {0}} {t : Session}
        → (validate_inputs p >> check_owner p) s ≡ (ok u, t)
        → Fits db lock i (locking p (ascending p.from_account_id p.to_account_id) [])
    begun {u} {t} e = record {
      inputs = (inputs_checked p s {u = u} {t = t} e).0;
      owned = (inputs_checked p s {u = u} {t = t} e).1;
      current = λ k a h. ground arith;
      mine = λ k a h. ground arith;
      in_order = ascending-Ascending p (inputs_checked p s {u = u} {t = t} e).0;
    }

    go :
        (r : Result (Unit {0}) × Session)
        → (validate_inputs p >> check_owner p) s ≡ r
        → Fits db lock i (check_inputs env p db calls)
    go (ok u, t) e =
        subst (Fits db lock i) {x = locking p (ascending p.from_account_id p.to_account_id) []}
          (ground (arith, e)) (begun {u = u} {t = t} e)
    go (err x, t) e = ground (arith, e)

-- A change of the locks that keeps those of `i`.
pub Fits-lock :
    (db : Db) (lock lock' : ℕ → Option ℕ) (i : ℕ) (w : Worker)
    → ((k : ℕ) → lock k ≡ some i → lock' k ≡ some i)
    → Fits db lock i w
    → Fits db lock' i w
Fits-lock db lock lock' i (asked p) keeps f = tt
Fits-lock db lock lock' i (keyed p) keeps f = tt
Fits-lock db lock lock' i (locking p ks rows) keeps f = record {
  inputs = f.inputs;
  owned = f.owned;
  current = f.current;
  mine = λ k a e. keeps k (f.mine k a e);
  in_order = f.in_order;
}
Fits-lock db lock lock' i (answered r) keeps f = tt

-- The lock query takes a free row.
module _ (i : ℕ) (p : Transfer) (k : ℕ) (ks : List ℕ) (rows : List Account) (st : Bank)
    (c : Coherent st) (h : Holding st.db st.lock i p (k ∷ ks) rows)
    (holds : (j : ℕ) → st.lock j ≡ some i → Holds j (locking p (k ∷ ks) rows)) where
  skipped-Coherent : Coherent (become i (locking p ks rows) st)
  skipped-Coherent =
      become-Coherent i (locking p ks rows) st c
        (record {
          inputs = h.inputs;
          owned = h.owned;
          current = h.current;
          mine = h.mine;
          in_order = h.in_order.1;
        })
        (λ j e. (holds j e).1)

  module _ (a : Account) (found : select_one (has_id k) st.db.accounts ≡ some a)
      (free : st.lock k ≡ none) where
    abbrev lock' : ℕ → Option ℕ
    lock' = put k (some i) st.lock

    id_of_row : has_id k a ≡ true
    id_of_row = select_one_holds (has_id k) st.db.accounts a found

    taken-Coherent :
        Coherent (record (become i (locking p ks (rows ++ a ∷ [])) st) { lock = lock' })
    taken-Coherent = record {
      fits =
          put_all (Fits st.db lock') i (locking p ks (rows ++ a ∷ [])) st.workers
            (record {
              inputs = h.inputs;
              owned = h.owned;
              current = λ j b e. ground (
                arith,
                select_one-append (has_id j) rows (a ∷ []),
                h.current j b,
                found,
                id_of_row,
              );
              mine = λ j b e.
                  ground (arith, select_one-append (has_id j) rows (a ∷ []), h.mine j b, id_of_row);
              in_order = h.in_order.1;
            })
            (λ j ne.
              Fits-lock st.db st.lock lock' j (st.workers j) (λ m e. ground (arith, e, free))
                (c.fits j));
      held = λ m.
          put_all (λ j w. lock' m ≡ some j → Holds m w) i (locking p ks (rows ++ a ∷ [])) st.workers
            (λ e. elim (Bool-cases (m == k)) [
              | inl same ↦ subst (λ n. Ahead n ks) (ground (arith, same)) h.in_order.0
              | inr other ↦ (holds m (ground (arith, other))).1
            ])
            (λ j ne e. c.held m j (ground (arith)));
    }

  pub take_row-Coherent : {next : Bank} → take_row i p k ks rows st ≡ some next → Coherent next
  unfolding take_row
  take_row-Coherent {next} e = elim (Option-cases (select_one (has_id k) st.db.accounts)) [
    | inl missing ↦ subst Coherent (ground (arith, missing)) skipped-Coherent
    | inr (a, found) ↦ elim (Option-cases (st.lock k)) [
      | inr (j, taken) ↦ absurd (ground (arith, found, taken))
      | inl free ↦ subst Coherent (ground (arith, found, free)) (taken-Coherent a found free)
    ]
  ]
