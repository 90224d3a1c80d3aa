-- ===== src/Routers/Totals.antt =====
-- The totals of the internal user context, against the sums of the accounts.
use mathlib.Core.List.{Permᴰ}
use mathlib.Core.List.Permᴰ.{nil, cons, swap, trans}
use nexobank_backend.Base.{
  ℕ, ◌≡◌, refl, ◌∙◌, ℤ, pos, ◌+ℤ◌, int_laws, String, Bool, true, false, ◌==◌, Option, none, some,
  List, [], ◌∷◌, arith, eq_iff, str_eq, select_one, select_all, has_row, Option-cases, Bool-cases,
  inl, inr, if◌then◌else◌,
}
use nexobank_backend.Models.{User, Account}
use nexobank_backend.Base.Dict.{Dict, get, get_or, set_key, get-set_key}
use nexobank_backend.Session.{Env, Session, Db, ok}
use nexobank_backend.Dependencies.{verify_internal_api_key}
use nexobank_backend.Ledger.{total, balance_in}
use nexobank_backend.Repositories.Users
use nexobank_backend.Repositories.Users.{has_id}
use nexobank_backend.Repositories.Accounts
use nexobank_backend.Schemas.{map}
use nexobank_backend.Routers.Internal.{
  add_balances, UserContextResponse, entry_of, get_user_context,
}

abbrev pub in_currency : String → Account → Bool
in_currency c a = str_eq a.currency c

-- What the loop adds to the total of a currency.
abbrev pub raised : Bool → Option ℤ → ℤ → Option ℤ
raised false before sum = before
raised true before sum = some (get_or (pos 0) before +ℤ sum)

+ℤ_assoc : (x y z : ℤ) → (x +ℤ y) +ℤ z ≡ x +ℤ (y +ℤ z)
+ℤ_assoc x y z = grind int_laws

+ℤ_zero_left : (x : ℤ) → pos 0 +ℤ x ≡ x
+ℤ_zero_left x = grind int_laws

+ℤ_zero_right : (x : ℤ) → x +ℤ pos 0 ≡ x
+ℤ_zero_right x = grind int_laws

total-none :
    (c : String) (rows : List Account) → has_row (in_currency c) rows ≡ false → total c rows ≡ pos 0
unfolding total
total-none c [] h = refl
total-none c (a ∷ rows) h = grind (int_laws, total-none c rows)

get-add_balances :
    (c : String) (totals : Dict ℤ) (rows : List Account)
    → get c (add_balances totals rows)
      ≡ raised (has_row (in_currency c) rows) (get c totals) (total c rows)
unfolding add_balances total
get-add_balances c totals [] = refl
get-add_balances c totals (a ∷ rows) =
    get-add_balances c (set_key a.currency sum totals) rows ∙ elim (Bool-cases (in_currency c a)) [
      | inl e ↦ elim (Bool-cases (has_row (in_currency c) rows)) [
        | inl k ↦ ground (
          arith,
          e,
          k,
          eq_iff a.currency c,
          get-set_key a.currency c sum totals,
          +ℤ_assoc (get_or (pos 0) (get c totals)) a.balance (total c rows),
        )
        | inr k ↦ ground (
          arith,
          e,
          k,
          eq_iff a.currency c,
          get-set_key a.currency c sum totals,
          total-none c rows k,
          +ℤ_zero_right a.balance,
        )
      ]
      | inr e ↦ ground (arith, e, get-set_key a.currency c sum totals, +ℤ_zero_left (total c rows))
    ]
  where
    sum : ℤ
    sum = get_or (pos 0) (get a.currency totals) +ℤ a.balance

abbrev accounts_of : ℕ → Db → List Account
accounts_of user_id db = select_all (λ a. a.user_id == user_id) db.accounts

totals_of :
    (c : String) (rows : List Account)
    → get c (add_balances [] rows)
      ≡ (if has_row (in_currency c) rows then some (total c rows) else none)
totals_of c rows = ground (arith, get-add_balances c [] rows, +ℤ_zero_left (total c rows))

+ℤ_swap : (x y z : ℤ) → x +ℤ (y +ℤ z) ≡ y +ℤ (x +ℤ z)
+ℤ_swap x y z = grind int_laws

-- the sum does not depend on the order
total-perm : {xs ys : List Account} (c : String) → Permᴰ xs ys → total c xs ≡ total c ys
unfolding total
total-perm c nil = refl
total-perm c (cons e p) = ground (arith, e, total-perm c p)
total-perm c (swap {a} {b} {l = l} e f) =
    +ℤ_swap (balance_in c a) (balance_in c b) (total c l) ∙ ground (arith, e, f)
total-perm c (trans p q) = total-perm c p ∙ total-perm c q

has_row-perm :
    {xs ys : List Account} (test : Account → Bool) → Permᴰ xs ys → has_row test xs ≡ has_row test ys
has_row-perm test nil = refl
has_row-perm test (cons e p) = ground (arith, e, has_row-perm test p)
has_row-perm test (swap e f) = ground (arith, e, f)
has_row-perm test (trans p q) = has_row-perm test p ∙ has_row-perm test q

-- A user context that is answered needs the internal key and is that of a user in the table. It lists
-- the user's accounts in some order; what it says of a currency is the sum of their balances in it, and
-- it says nothing of a currency in which the user has no account. The request changes nothing.
pub get_user_context_totals :
    (env : Env) (api_key : String) (user_id : ℕ) (s : Session) {r : UserContextResponse}
    {t : Session} (c : String)
    → get_user_context env api_key user_id s ≡ (ok r, t)
    → (api_key ≡ env.settings.internal_api_key)
      × ((user : User) × (select_one (has_id user_id) s.db.users ≡ some user)
          × (r.user_id ≡ user.id))
      × ((rows : List Account) × Permᴰ rows (accounts_of user_id s.db)
          × (r.accounts ≡ map entry_of rows))
      × (get c r.total_balance_by_currency ≡ (
          if has_row (in_currency c) (accounts_of user_id s.db)
          then some (total c (accounts_of user_id s.db))
          else none))
      × (t ≡ s)
unfolding get_user_context verify_internal_api_key Users.get_by_id Accounts.get_by_user_id
get_user_context_totals env api_key user_id s {r} {t} c h =
    elim (Option-cases (select_one (has_id user_id) s.db.users)) [
      | inl e ↦ absurd (ground (arith, h, e))
      | inr (user, e) ↦
          let listed = env.account_scan s.calls (accounts_of user_id s.db) in
          (
            (eq_iff api_key env.settings.internal_api_key).0 (ground (arith, h)),
            (user, e, ground (arith, h, e)),
            (listed.0, listed.1, ground (arith, h, e)),
            ground (
              arith,
              h,
              e,
              totals_of c listed.0,
              has_row-perm (in_currency c) listed.1,
              total-perm c listed.1,
            ),
            ground (arith, h, e),
          )
    ]
