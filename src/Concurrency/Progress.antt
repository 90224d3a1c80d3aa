-- ===== src/Concurrency/Progress.antt =====
-- No interleaving of transfers gets stuck or runs forever: rows are locked in ascending order, and
-- every request has a bounded number of steps.
use nexobank_backend.Base.{
  ℕ, zero, suc, ◌+◌, ◌<◌, ◌≤◌, ◌==◌, ◌≡◌, ◌≢◌, refl, ◌⊎◌, inl, inr, some, List, [], ◌∷◌, ◌++◌,
  arith, length, select_one, Option-cases, if◌then◌else◌, ltb,
}
use nexobank_backend.Models.{Account, Transaction}
use nexobank_backend.Session.{Env, Result}
use nexobank_backend.Repositories.Accounts.{has_id}
use nexobank_backend.Transfers.{Transfer}
use nexobank_backend.Concurrency.{
  Worker, asked, keyed, locking, answered, Bank, put, become, take_row, ascending, check_key,
  check_inputs, finish, advance, step, Interleaved, at_start, after,
}
use nexobank_backend.Concurrency.Copies.{Holds, Coherent}

-- the highest id of a table
highest : List Account → ℕ
highest [] = 0
highest (a ∷ t) = let rest = highest t in if ltb rest a.id then a.id else rest

le-highest :
    (k : ℕ) (t : List Account) (a : Account) → select_one (has_id k) t ≡ some a → k ≤ highest t
unfolding highest
le-highest k [] a h = ground arith
le-highest k (b ∷ t) a h = ground (arith, le-highest k t a)

-- the steps that a phase may still take
abbrev pub rank : Worker → ℕ
rank (asked p) = 5
rank (keyed p) = 4
rank (locking p ks rows) = length ks + 1
rank (answered r) = 0

module _ (env : Env) where
  -- some request can go on
  abbrev pub CanStep : Bank → Type 0
  CanStep st = (j : ℕ) × (next : Bank) × (step env j st ≡ some next)

  module _ (st : Bank) (c : Coherent st) where
    -- the holder of a row can go on when those that wait for a greater id can
    holder-CanStep :
        (k j : ℕ) (w : Worker)
        → st.workers j ≡ w
        → Holds k w
        → ((p : Transfer) (k' : ℕ) (ks : List ℕ) (rows : List Account)
            → k < k'
            → st.workers j ≡ locking p (k' ∷ ks) rows
            → CanStep st)
        → CanStep st
    unfolding step
    holder-CanStep k j (asked p) here holds greater = absurd holds
    holder-CanStep k j (keyed p) here holds greater = absurd holds
    holder-CanStep k j (locking p [] rows) here holds greater =
        (j, finish env j p rows st, ground (arith, here))
    holder-CanStep k j (locking p (k' ∷ ks) rows) here holds greater =
        greater p k' ks rows holds.0 here
    holder-CanStep k j (answered r) here holds greater = absurd holds

    -- a request in its lock query goes on, or waits for a row that is held
    goes_or_waits :
        (i : ℕ) (p : Transfer) (k : ℕ) (ks : List ℕ) (rows : List Account)
        → st.workers i ≡ locking p (k ∷ ks) rows
        → CanStep st
          ⊎ ((a : Account) × (j : ℕ) × (select_one (has_id k) st.db.accounts ≡ some a)
              × (st.lock k ≡ some j))
    unfolding step take_row
    goes_or_waits i p k ks rows here = elim (Option-cases (select_one (has_id k) st.db.accounts)) [
      | inl missing ↦ inl (i, become i (locking p ks rows) st, ground (arith, here, missing))
      | inr (a, found) ↦ elim (Option-cases (st.lock k)) [
        | inl free ↦ inl (
          i,
          record (become i (locking p ks (rows ++ a ∷ [])) st) { lock = put k (some i) st.lock },
          ground (arith, here, found, free),
        )
        | inr (j, taken) ↦ inr (a, j, found, taken)
      ]
    ]

    -- … and then, the holder goes on or waits for a row with a greater id, which ends at the highest.
    waiting-CanStep :
        (fuel i : ℕ) (p : Transfer) (k : ℕ) (ks : List ℕ) (rows : List Account)
        → highest st.db.accounts < k + fuel
        → st.workers i ≡ locking p (k ∷ ks) rows
        → CanStep st
    waiting-CanStep zero i p k ks rows enough here = elim (goes_or_waits i p k ks rows here) [
      | inl goes ↦ goes
      | inr (a, j, found, taken) ↦ absurd (omega (arith, le-highest k st.db.accounts a found))
    ]
    waiting-CanStep (suc n) i p k ks rows enough here = elim (goes_or_waits i p k ks rows here) [
      | inl goes ↦ goes
      | inr (a, j, found, taken) ↦
          holder-CanStep k j (st.workers j) refl (c.held k j taken)
            (λ q k' ks' rows' less there. waiting-CanStep n j q k' ks' rows' (omega arith) there)
    ]

    pub unanswered-CanStep :
        (i : ℕ) (w : Worker)
        → st.workers i ≡ w
        → ((r : Result Transaction) → w ≢ answered r)
        → CanStep st
    unfolding step
    unanswered-CanStep i (asked p) here open_yet =
        (i, become i (check_key env p st.db st.calls) st, ground (arith, here))
    unanswered-CanStep i (keyed p) here open_yet =
        (i, become i (check_inputs env p st.db st.calls) st, ground (arith, here))
    unanswered-CanStep i (locking p [] rows) here open_yet =
        (i, finish env i p rows st, ground (arith, here))
    unanswered-CanStep i (locking p (k ∷ ks) rows) here open_yet =
        waiting-CanStep (suc (highest st.db.accounts)) i p k ks rows (omega arith) here
    unanswered-CanStep i (answered r) here open_yet = absurd (open_yet r refl)

  advance_lowers :
      (i : ℕ) (w : Worker) (st next : Bank)
      → advance env i w st ≡ some next
      → (rank (next.workers i) < rank w) × ((j : ℕ) → j ≢ i → next.workers j ≡ st.workers j)
  unfolding take_row check_key check_inputs finish ascending
  advance_lowers i (asked p) st next e = (ground (arith, e), λ j ne. ground (arith, e))
  advance_lowers i (keyed p) st next e = (ground (arith, e), λ j ne. ground (arith, e))
  advance_lowers i (locking p [] rows) st next e = (ground (arith, e), λ j ne. ground (arith, e))
  advance_lowers i (locking p (k ∷ ks) rows) st next e =
      (ground (arith, e), λ j ne. ground (arith, e))
  advance_lowers i (answered r) st next e = absurd (ground (arith, e))

  -- the steps of the request `i` in an interleaving
  abbrev pub steps_of : {begin st : Bank} → ℕ → Interleaved env begin st → ℕ
  steps_of i at_start = 0
  steps_of i (after st next j h e) = let rest = steps_of i h in if j == i then suc rest else rest

  pub step_lowers :
      (i : ℕ) (st next : Bank)
      → step env i st ≡ some next
      → (rank (next.workers i) < rank (st.workers i))
        × ((j : ℕ) → j ≢ i → next.workers j ≡ st.workers j)
  unfolding step
  step_lowers i st next e = advance_lowers i (st.workers i) st next e
