-- ===== src/Transfers/Locking.antt =====
-- `_lock_accounts_for_update` returns the two rows in the order of its arguments, whatever the order
-- in which they were locked; it is refused exactly when one of them is missing.
use nexobank_backend.Base.{
  ℕ, ◌≡◌, ◌≢◌, refl, ◌∙◌, ◌⊎◌, inl, inr, true, false, Option, none, some, List, [], ◌∷◌, arith,
  select_one, select_all, has_row, IsUnique, select_one_holds, Option-cases,
}
use nexobank_backend.Models.{Account}
use nexobank_backend.Session.{Session, ok, err, domain, account_not_found}
use nexobank_backend.Repositories.Accounts.{has_id, same_id}
use nexobank_backend.Transfers.{in_pair, lock_accounts_for_update}

-- A unique id selects its row, or nothing.
abbrev row_of : Option Account → List Account
row_of none = []
row_of (some a) = a ∷ []

has_row-same :
    (k : ℕ) (a : Account) (t : List Account)
    → (has_id k a ≡ true)
    → has_row (same_id a) t ≡ false
    → select_one (has_id k) t ≡ none
has_row-same k a [] e h = refl
has_row-same k a (b ∷ t) e h = ground (arith, has_row-same k a t e)

select_all-has_id :
    (k : ℕ) (t : List Account)
    → IsUnique same_id t
    → select_all (has_id k) t ≡ row_of (select_one (has_id k) t)
select_all-has_id k [] u = refl
select_all-has_id k (a ∷ t) u = ground (arith, select_all-has_id k t u.1, has_row-same k a t)

select_all-in_pair_left :
    (i j : ℕ) (t : List Account)
    → select_one (has_id i) t ≡ none
    → select_all (in_pair i j) t ≡ select_all (has_id j) t
select_all-in_pair_left i j [] h = refl
select_all-in_pair_left i j (a ∷ t) h = ground (arith, select_all-in_pair_left i j t)

select_all-in_pair_right :
    (i j : ℕ) (t : List Account)
    → select_one (has_id j) t ≡ none
    → select_all (in_pair i j) t ≡ select_all (has_id i) t
select_all-in_pair_right i j [] h = refl
select_all-in_pair_right i j (a ∷ t) h = ground (arith, select_all-in_pair_right i j t)

-- the two rows, in the order of the table
select_all-in_pair :
    (i j : ℕ) (a b : Account) (t : List Account)
    → i ≢ j
    → IsUnique same_id t
    → select_one (has_id i) t ≡ some a
    → select_one (has_id j) t ≡ some b
    → (select_all (in_pair i j) t ≡ a ∷ b ∷ []) ⊎ (select_all (in_pair i j) t ≡ b ∷ a ∷ [])
select_all-in_pair i j a b [] ne u ha hb = ground arith
select_all-in_pair i j a b (c ∷ t) ne u ha hb = ground (
  arith,
  has_row-same i c t,
  has_row-same j c t,
  select_all-in_pair_left i j t,
  select_all-in_pair_right i j t,
  select_all-has_id i t u.1,
  select_all-has_id j t u.1,
  select_all-in_pair i j a b t ne u.1,
)

module _ (i j : ℕ) (s : Session) (ne : i ≢ j) (u : IsUnique same_id s.db.accounts) where
  -- Both rows are there: they come back in the order of the arguments.
  pub lock-passes :
      (a b : Account)
      → select_one (has_id i) s.db.accounts ≡ some a
      → select_one (has_id j) s.db.accounts ≡ some b
      → lock_accounts_for_update i j s ≡ (ok (a, b), s)
  unfolding lock_accounts_for_update
  lock-passes a b ha hb = elim (select_all-in_pair i j a b s.db.accounts ne u ha hb) [
    | inl e ↦ rw (e, lock_accounts_for_update) (ground (arith, id_of_a, id_of_b))
    | inr e ↦ rw (e, lock_accounts_for_update) (ground (arith, id_of_a, id_of_b))
  ]
    where
      id_of_a : has_id i a ≡ true
      id_of_a = select_one_holds (has_id i) s.db.accounts a ha

      id_of_b : has_id j b ≡ true
      id_of_b = select_one_holds (has_id j) s.db.accounts b hb

  lock_one_row :
      (o : Option Account)
      → select_all (in_pair i j) s.db.accounts ≡ row_of o
      → lock_accounts_for_update i j s ≡ (err (domain account_not_found), s)
  unfolding lock_accounts_for_update
  lock_one_row none e = rw (e, lock_accounts_for_update)
  lock_one_row (some a) e = rw (e, lock_accounts_for_update)

  pub lock-refused_left :
      select_one (has_id i) s.db.accounts ≡ none
      → lock_accounts_for_update i j s ≡ (err (domain account_not_found), s)
  lock-refused_left h =
      lock_one_row (select_one (has_id j) s.db.accounts)
        (select_all-in_pair_left i j s.db.accounts h ∙ select_all-has_id j s.db.accounts u)

  pub lock-refused_right :
      select_one (has_id j) s.db.accounts ≡ none
      → lock_accounts_for_update i j s ≡ (err (domain account_not_found), s)
  lock-refused_right h =
      lock_one_row (select_one (has_id i) s.db.accounts)
        (select_all-in_pair_right i j s.db.accounts h ∙ select_all-has_id i s.db.accounts u)

  pub lock-ok :
      {pair : Account × Account} {t : Session}
      → lock_accounts_for_update i j s ≡ (ok pair, t)
      → (select_one (has_id i) s.db.accounts ≡ some pair.0)
        × (select_one (has_id j) s.db.accounts ≡ some pair.1)
        × (t ≡ s)
  lock-ok h = elim (Option-cases (select_one (has_id i) s.db.accounts)) [
    | inl e ↦ absurd (cc (lock-refused_left e))
    | inr (a, ea) ↦ elim (Option-cases (select_one (has_id j) s.db.accounts)) [
      | inl e ↦ absurd (cc (lock-refused_right e))
      | inr (b, eb) ↦ ground (arith, lock-passes a b ea eb)
    ]
  ]
