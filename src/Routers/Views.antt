-- ===== src/Routers/Views.antt =====
-- What the reading routes show: rows of the signed-in user only.
use mathlib.Core.Path.{subst}
use nexobank_backend.Base.{
  ℕ, zero, suc, ◌+◌, ◌≡◌, ◌==◌, ◌&&◌, String, Bool, true, Option, some, List, [], ◌∷◌, arith,
  length, take, select_one, select_all, Option-cases, Bool-cases, inl, inr,
}
use nexobank_backend.Models.{User, Account, Transaction, is_active}
use nexobank_backend.Session.{Env, Db, Session, ok}
use nexobank_backend.Dependencies.Guarding.{Names, get_current_active_user_guards}
use nexobank_backend.Repositories.Accounts as Rows
use nexobank_backend.Repositories.Accounts.{has_id}
use nexobank_backend.Repositories.Cards as CardRows
use nexobank_backend.Repositories.Devices as DeviceRows
use nexobank_backend.Repositories.Devices.{is_active_of}
use nexobank_backend.Repositories.Transactions.Paging.{
  is_of, is_after, cursor_row, page_of, matching_rows, get_by_account_id_paginated,
}
use nexobank_backend.Repositories.Transactions.Paging.Ordering.{All, All-order_by}
use nexobank_backend.Accounts
use nexobank_backend.Transfers
use nexobank_backend.Cards
use mathlib.Core.List.{Perm, Permᴰ}
use nexobank_backend.Models.{Card, DeviceToken}
use nexobank_backend.Devices
use nexobank_backend.Schemas.{
  map, transaction_response, account_response, card_response, user_response, device_token_response,
}
use nexobank_backend.Routers.Reading.{
  Query, my_profile, my_accounts, my_device_tokens, account_of, cards_of, transactions_of, View, me,
  accounts, account, transactions, cards, device_tokens, is_some, read_for, read, get_me,
  list_accounts, get_account, list_transactions, list_cards, list_device_tokens,
}

-- the account `k` is there and is the user's
pub record Holder (db : Db) (user : User) (k : ℕ) : Type 0 where
  pub row : Account
  pub found : select_one (has_id k) db.accounts ≡ some row
  pub owned : row.user_id ≡ user.id

-- The views that are made of rows of a user, for each query.
pub data OwnView (db : Db) (user : User) : Query → View → Type 0 where
  own_profile : OwnView db user my_profile (me (user_response user))
  own_accounts :
      (rows : List Account)
      → Permᴰ rows (select_all (λ a. a.user_id == user.id) db.accounts)
      → OwnView db user my_accounts
          (accounts (record { items = map account_response rows; total = length rows }))
  own_account :
      (k : ℕ) (h : Holder db user k)
      → OwnView db user (account_of k) (account (account_response h.row))
  own_transactions :
      (k limit : ℕ) (cursor next : Option String) (rows : List Transaction)
      → Holder db user k
      → All (λ t. t.account_id ≡ k) rows
      → OwnView db user (transactions_of k limit cursor) (
          transactions (record {
            items = map transaction_response rows;
            next_cursor = next;
            has_more = is_some next;
          }))
  own_cards :
      (k : ℕ) (rows : List Card)
      → Holder db user k
      → Perm rows (select_all (λ c. c.account_id == k) db.cards)
      → OwnView db user (cards_of k) (cards (map card_response rows))
  own_device_tokens :
      (rows : List DeviceToken)
      → Permᴰ rows (select_all (is_active_of user.id) db.device_tokens)
      → OwnView db user my_device_tokens
          (device_tokens (record { items = map device_token_response rows; total = length rows }))

All-take :
    (P : Transaction → Type 0) (n : ℕ) (rows : List Transaction) → All P rows → All P (take n rows)
All-take P zero rows a = tt
All-take P (suc n) [] a = tt
All-take P (suc n) (t ∷ rows) a = (a.0, All-take P n rows a.1)

select_all-of_account :
    (k : ℕ) (q : Transaction → Bool) (rows : List Transaction)
    → All (λ t. t.account_id ≡ k) (select_all (λ t. is_of k t && q t) rows)
select_all-of_account k q [] = tt
select_all-of_account k q (t ∷ rows) = elim (Bool-cases (is_of k t && q t)) [
  | inl e ↦
      subst (All (λ t. t.account_id ≡ k)) {x = t ∷ select_all (λ t. is_of k t && q t) rows}
        (ground (arith, e)) (ground (arith, e), select_all-of_account k q rows)
  | inr e ↦
      subst (All (λ t. t.account_id ≡ k)) {x = select_all (λ t. is_of k t && q t) rows}
        (ground (arith, e)) (select_all-of_account k q rows)
]

module _ (env : Env) (user : User) (s : Session) where
  page-All :
      (k limit : ℕ) (cursor : Option String)
      → All
          (λ t. t.account_id ≡ k)
          (page_of env limit (take (limit + 1) (matching_rows env k cursor s.db.transactions))).0
  unfolding page_of matching_rows
  page-All k limit cursor =
      All-take (λ t. t.account_id ≡ k) limit
        (take (limit + 1) (matching_rows env k cursor s.db.transactions))
        (All-take (λ t. t.account_id ≡ k) (limit + 1) (matching_rows env k cursor s.db.transactions)
          (All-order_by (λ t. t.account_id ≡ k) _
            (select_all-of_account k (is_after (cursor_row env cursor s.db.transactions))
              s.db.transactions)))

  abbrev own_rows :
      (rows : List Account) × Permᴰ rows (select_all (λ a. a.user_id == user.id) s.db.accounts)
  own_rows = env.account_scan s.calls (select_all (λ a. a.user_id == user.id) s.db.accounts)

  abbrev own_tokens :
      (rows : List DeviceToken) × Permᴰ rows (select_all (is_active_of user.id) s.db.device_tokens)
  own_tokens = env.token_scan s.calls (select_all (is_active_of user.id) s.db.device_tokens)

  abbrev listed :
      (k : ℕ) → (rows : List Card) × Perm rows (select_all (λ c. c.account_id == k) s.db.cards)
  listed k = env.card_scan s.calls (select_all (λ c. c.account_id == k) s.db.cards)

  read_for-OwnView :
      (q : Query) {view : View} {t : Session}
      → read_for env user q s ≡ (ok view, t)
      → OwnView s.db user q view × (t ≡ s)
  unfolding read_for get_me list_accounts get_account list_transactions list_cards
      list_device_tokens Accounts.get_user_accounts Rows.get_by_user_id Accounts.get_account
      Rows.get_by_id Transfers.get_account_transactions get_by_account_id_paginated
      Cards.get_account_cards CardRows.get_by_account_id Devices.list_device_tokens
      DeviceRows.get_active_by_user
  read_for-OwnView my_profile h =
      (subst (OwnView s.db user my_profile) (ground arith) own_profile, ground arith)
  read_for-OwnView my_accounts h = (
    subst (OwnView s.db user my_accounts) (ground arith) (own_accounts own_rows.0 own_rows.1),
    ground arith,
  )
  read_for-OwnView my_device_tokens h = (
    subst (OwnView s.db user my_device_tokens) (ground arith)
        (own_device_tokens own_tokens.0 own_tokens.1),
    ground arith,
  )
  read_for-OwnView (account_of k) h = elim (Option-cases (select_one (has_id k) s.db.accounts)) [
    | inl e ↦ absurd (ground (arith, e))
    | inr (a, e) ↦ (
      subst (OwnView s.db user (account_of k)) (ground (arith, e))
          (own_account k (record { row = a; found = e; owned = ground (arith, e) })),
      ground (arith, e),
    )
  ]
  read_for-OwnView (cards_of k) h = elim (Option-cases (select_one (has_id k) s.db.accounts)) [
    | inl e ↦ absurd (ground (arith, e))
    | inr (a, e) ↦ (
      subst (OwnView s.db user (cards_of k)) (ground (arith, e)) (
          own_cards k (listed k).0 (record { row = a; found = e; owned = ground (arith, e) })
            (listed k).1),
      ground (arith, e),
    )
  ]
  read_for-OwnView (transactions_of k limit cursor) h =
      elim (Option-cases (select_one (has_id k) s.db.accounts)) [
        | inl e ↦ absurd (ground (arith, e))
        | inr (a, e) ↦ (
          subst (OwnView s.db user (transactions_of k limit cursor)) (ground (arith, e)) (
              own_transactions k limit cursor
                (page_of env limit
                  (take (limit + 1) (matching_rows env k cursor s.db.transactions))).1
                (page_of env limit
                  (take (limit + 1) (matching_rows env k cursor s.db.transactions))).0
                (record { row = a; found = e; owned = ground (arith, e) })
                (page-All k limit cursor)),
          ground (arith, e),
        )
      ]

-- A reading route that answers has a token of an active user, shows that user's own rows and nothing
-- else (the profile, the accounts, the active push tokens; an account with its transactions or cards
-- only if it is the user's), and changes no table.
pub read-OwnView :
    (env : Env) (token : String) (q : Query) (s : Session) {view : View} {t : Session}
    → read env token q s ≡ (ok view, t)
    → (user : User) × Names env token s user
      × (is_active user ≡ true)
      × OwnView s.db user q view
      × (t ≡ record s { calls = s.calls + 1 })
unfolding read
read-OwnView env token q s {view} {t} h =
    let (same, who) = get_current_active_user_guards env token s in
    elim who [
      | inl (user, names, active, e) ↦
          let (own, after) =
            read_for-OwnView env user (record s { calls = s.calls + 1 }) q {view = view} {t = t}
              (ground (arith, same, e)) in
          (user, names, active, own, after)
      | inr others ↦ absurd (elim others [
        | inl (user, names, active, e) ↦ ground (arith, same, e)
        | inr (nobody, e) ↦ ground (arith, same, e)
      ])
    ]
