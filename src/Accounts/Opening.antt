-- ===== src/Accounts/Opening.antt =====
-- `create_account`: the search for an account number, and that a new account keeps the ledger.
use nexobank_backend.Base.{
  ℕ, zero, suc, ◌+◌, ◌<◌, ◌≡◌, ◌≢◌, refl, pos, ◌≤ℤ◌, String, ◌<>◌, Bool, Bool-cases, ◌≤◌, true,
  false, none, some, [], ◌∷◌, ◌++◌, arith, ◌==◌, ==_iff, select_one, select_one-append, has_row,
  IsUnique-append, Option-cases, inl, inr, str_eq, upper, or_else, if◌then◌else◌,
}
use nexobank_backend.Models.{Account, AccountType, AccountStatus}
use nexobank_backend.Session.{Env, Session, Result, ok, err, runtime_error}
use nexobank_backend.Repositories.Accounts
use nexobank_backend.Repositories.Accounts.{has_id, same_id, generate_account_number}
use nexobank_backend.Repositories.AuditLogs
use nexobank_backend.Ledger.{ledger, IsValid}
use nexobank_backend.Transfers.{is_supported}
use nexobank_backend.Accounts.{create_account}

abbrev pub has_number : String → Account → Bool
has_number number a = str_eq a.account_number number

module _ (env : Env) (prefix : String) where
  -- the candidate of the n-th draw
  abbrev candidate : ℕ → String
  candidate n = prefix <> env.random_digits n 12

  -- The search returns a candidate that no account has, and touches no table.
  generate-ok :
      (rounds : ℕ) (s : Session) {number : String} {t : Session}
      → generate_account_number env rounds prefix s ≡ (ok number, t)
      → (t.db ≡ s.db)
        × (t.committed ≡ s.committed)
        × (select_one (has_number number) s.db.accounts ≡ none)
  unfolding generate_account_number
  generate-ok zero s h = absurd (cc)
  generate-ok (suc rounds) s {number} {t} h =
      elim (Option-cases (select_one (has_number (candidate s.calls)) s.db.accounts)) [
        | inl new ↦ ground (arith, new)
        | inr (a, taken) ↦
            generate-ok rounds (record s { calls = s.calls + 1 }) {number = number} {t = t}
              (ground (arith, taken))
      ]

  -- With every candidate of the rounds taken, the search gives up.
  generate_gives_up :
      (rounds : ℕ) (s : Session)
      → ((n : ℕ)
          → s.calls ≤ n
          → n < s.calls + rounds
          → select_one (has_number (candidate n)) s.db.accounts ≢ none)
      → (generate_account_number env rounds prefix s).0 ≡ err runtime_error
  unfolding generate_account_number
  generate_gives_up zero s taken = refl
  generate_gives_up (suc rounds) s taken =
      elim (Option-cases (select_one (has_number (candidate s.calls)) s.db.accounts)) [
        | inl new ↦ absurd (taken s.calls (omega arith) (omega arith) new)
        | inr (a, e) ↦ ground (
          arith,
          e,
          generate_gives_up rounds (record s { calls = s.calls + 1 })
              (λ n lo hi. taken n (omega arith) (omega arith)),
        )
      ]

  -- With one candidate free, it finds a number.
  generate_finds :
      (rounds : ℕ) (s : Session) (n : ℕ)
      → s.calls ≤ n
      → n < s.calls + rounds
      → select_one (has_number (candidate n)) s.db.accounts ≡ none
      → (number : String) × (t : Session) × (generate_account_number env rounds prefix s
          ≡ (ok number, t))
  unfolding generate_account_number
  generate_finds zero s n lo hi free = absurd (omega arith)
  generate_finds (suc rounds) s n lo hi free =
      elim (Option-cases (select_one (has_number (candidate s.calls)) s.db.accounts)) [
        | inl new ↦ (candidate s.calls, record s { calls = s.calls + 1 }, ground (arith, new))
        | inr (a, e) ↦
            let (number, t, found) =
              generate_finds rounds (record s { calls = s.calls + 1 }) n (later a e) (omega arith)
                free in
            (number, t, ground (arith, e, found))
      ]
    where
      later :
          (a : Account)
          → select_one (has_number (candidate s.calls)) s.db.accounts ≡ some a
          → s.calls + 1 ≤ n
      later a e = elim (Bool-cases (s.calls == n)) [
        | inl same ↦ absurd (taken_and_free ((==_iff _ _).0 same))
        | inr other ↦ ground arith
      ]
        where
          taken_and_free : s.calls ≡ n → ⊥
          taken_and_free q = cc

-- What `create_account` has done when it returns.
pub record Opened (user_id : ℕ) (currency : String) (type : AccountType) (s : Session) (a : Account)
    (t : Session) : Type 0 where
  pub accounts : t.db.accounts ≡ s.db.accounts ++ a ∷ []
  pub transactions : t.db.transactions ≡ s.db.transactions
  pub new_id : has_row (same_id a) s.db.accounts ≡ false
  pub new_number : select_one (has_number a.account_number) s.db.accounts ≡ none
  pub owner : a.user_id ≡ user_id
  pub empty : a.balance ≡ pos 0
  pub active : a.status ≡ AccountStatus.active
  pub of_type : a.type ≡ type
  pub supported : is_supported (upper currency) ≡ true
  pub in_currency : a.currency ≡ upper (upper currency)

module _ (env : Env) (user_id : ℕ) (currency : String) (type : AccountType) (s : Session)
    {a : Account} {t : Session}
    (returned : create_account env user_id currency type s ≡ (ok a, t)) where
  opening_found :
      (r : Result String × Session)
      → generate_account_number env 10 (upper (upper currency)) s ≡ r
      → Opened user_id currency type s a t
  unfolding create_account Accounts.create Accounts.flush_row AuditLogs.log
  opening_found (ok number, u) e =
      let (same_db, _, new) = generate-ok env (upper (upper currency)) 10 s e in
      record {
        accounts = ground (arith, e, same_db);
        transactions = ground (arith, e, same_db);
        new_id = ground (arith, e, same_db);
        new_number = ground (arith, e, same_db, new);
        owner = ground (arith, e);
        empty = ground (arith, e);
        active = ground (arith, e);
        of_type = ground (arith, e);
        supported = ground (arith, e);
        in_currency = ground (arith, e);
      }
  opening_found (err x, u) e = absurd (ground (arith, e))

  -- An account that `create_account` returns is an active account of the user, with a balance of
  -- zero, in the supported currency that was asked for, with an id and an account number that no
  -- account had; the table grows by it alone and no transaction is written.
  pub create_account-Opened : Opened user_id currency type s a t
  create_account-Opened =
      opening_found (generate_account_number env 10 (upper (upper currency)) s) refl

  lookup_after :
      (k : ℕ)
      → select_one (has_id k) t.db.accounts
        ≡ or_else (select_one (has_id k) s.db.accounts) (if a.id == k then some a else none)
  lookup_after k =
      rw (create_account-Opened.accounts) (select_one-append (has_id k) s.db.accounts (a ∷ []))

  -- A call of `create_account` that returns keeps the invariant of the ledger.
  pub create_account-IsValid : IsValid s.db → IsValid t.db
  create_account-IsValid v = record {
    account_ids =
        rw o.accounts
          (IsUnique-append same_id s.db.accounts a (λ x. ground arith) v.account_ids o.new_id);
    transaction_ids = rw o.transactions v.transaction_ids;
    keys = rw o.transactions v.keys;
    nonneg = λ k b h. (at k b h).0;
    reconciled = λ k b h. (at k b h).1;
    unowned = λ k h. ground (
      arith,
      o.transactions,
      lookup_after k,
      v.unowned k,
      Option-cases (select_one (has_id k) s.db.accounts),
    );
  }
    where
      o : Opened user_id currency type s a t
      o = create_account-Opened

      at :
          (k : ℕ) (b : Account)
          → select_one (has_id k) t.db.accounts ≡ some b
          → (pos 0 ≤ℤ b.balance) × (b.balance ≡ ledger k t.db.transactions)
      at k b h = elim (Option-cases (select_one (has_id k) s.db.accounts)) [
        | inl e ↦ ground (arith, lookup_after k, e, o.empty, v.unowned k e, o.transactions)
        | inr (old, e) ↦
            ground
              (arith, lookup_after k, e, v.nonneg k old e, v.reconciled k old e, o.transactions)
      ]

-- With a supported currency, an account is refused with a `RuntimeError` when the ten numbers that are
-- drawn are all taken.
pub create_account_gives_up :
    (env : Env) (user_id : ℕ) (currency : String) (type : AccountType) (s : Session)
    → is_supported (upper currency) ≡ true
    → ((n : ℕ)
        → s.calls ≤ n
        → n < s.calls + 10
        → select_one (has_number (upper (upper currency) <> env.random_digits n 12)) s.db.accounts
          ≢ none)
    → (create_account env user_id currency type s).0 ≡ err runtime_error
unfolding create_account Accounts.create
create_account_gives_up env user_id currency type s supported taken =
    ground (arith, supported, generate_gives_up env (upper (upper currency)) 10 s taken)

-- The search for a number ends with one when at least one of the numbers that it draws is free.
pub generate_account_number_finds :
    (env : Env) (prefix : String) (s : Session) (n : ℕ)
    → s.calls ≤ n
    → n < s.calls + 10
    → select_one (has_number (prefix <> env.random_digits n 12)) s.db.accounts ≡ none
    → (number : String) × (t : Session) × (generate_account_number env 10 prefix s ≡ (ok number, t))
      × (select_one (has_number number) t.db.accounts ≡ none)
generate_account_number_finds env prefix s n lo hi free =
    let (number, t, found) = generate_finds env prefix 10 s n lo hi free in
    let (same, _, new) = generate-ok env prefix 10 s found in
    (number, t, found, ground (arith, same, new))
