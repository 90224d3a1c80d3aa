-- ===== src/Repositories/Transactions/Paging/Reading.antt =====
-- Reading an account's transactions page by page, as a client does.
use mathlib.Core.Path.{ap, sym, subst, ◌∙◌}
use mathlib.Core.List.{append_assoc}
use nexobank_backend.Base.{
  ℕ, zero, suc, ◌≤◌, ◌<◌, ◌≡◌, refl, String, true, false, ◌&&◌, Option, none, some, List, [], ◌∷◌,
  ◌++◌, arith, ◌==◌, ==_refl, ltb, select_one, select_all, IsUnique, length, order_by, Bool-cases,
  inl, inr,
}
use nexobank_backend.Models.{Transaction}
use nexobank_backend.Session.{Env, Session, ok, Action, pure, ◌>>=◌}
use nexobank_backend.Repositories.Transactions.{same_id}
use nexobank_backend.Repositories.Transactions.Paging.{
  older, is_of, is_after, encode_cursor, cursor_row, matching_rows, page_of,
  get_by_account_id_paginated,
}
use nexobank_backend.Repositories.Transactions.Paging.Cutting.{
  cut_page, rest_shorter, last_row-append, take-all, page_of-take, select_all-true,
}
use nexobank_backend.Repositories.Transactions.Paging.Ordering.{
  All, Chain, All-select_all, All-order_by, All-middle, distinct_rows, Chain-order_by,
  select_all-order_by, select_all-and, IsUnique-select_all, select_all-after,
}

-- the statement of an account: its rows, newest first
unfoldable pub statement_of : ℕ → List Transaction → List Transaction
statement_of account_id rows = order_by older (select_all (is_of account_id) rows)

-- A row of a table with unique ids is found under its id.
each_row_found :
    (rows : List Transaction)
    → IsUnique same_id rows
    → All (λ t. select_one (λ x. x.id == t.id) rows ≡ some t) rows
each_row_found [] u = tt
each_row_found (r ∷ rows) u =
    (ground (arith, ==_refl r.id), later rows (distinct_rows r rows u.0) (each_row_found rows u.1))
  where
    later :
        (more : List Transaction)
        → All (λ t. same_id r t ≡ false) more
        → All (λ t. select_one (λ x. x.id == t.id) rows ≡ some t) more
        → All (λ t. select_one (λ x. x.id == t.id) (r ∷ rows) ≡ some t) more
    later [] d a = tt
    later (t ∷ more) d a = (ground (arith, d.0, a.0), later more d.1 a.1)

module _ (env : Env) (account_id : ℕ) (rows : List Transaction) (unique : IsUnique same_id rows)
    (decodes : (s : String) → env.b64decode (env.b64encode s) ≡ some s)
    (parses : (k : ℕ) → env.parse_uuid (env.uuid_text k) ≡ some k) where
  -- the rows that a call with the cursor may still return
  abbrev pending : Option String → List Transaction
  pending cursor = matching_rows env account_id cursor rows

  pending-first : pending none ≡ statement_of account_id rows
  unfolding matching_rows statement_of
  pending-first = ap (order_by older) (
      select_all-and (is_of account_id) (λ t. true) rows
      ∙ select_all-true (select_all (is_of account_id) rows))

  found_in_statement :
      All (λ t. select_one (λ x. x.id == t.id) rows ≡ some t) (statement_of account_id rows)
  unfolding statement_of
  found_in_statement =
      All-order_by (λ t. select_one (λ x. x.id == t.id) rows ≡ some t)
        (select_all (is_of account_id) rows)
        (All-select_all (λ t. select_one (λ x. x.id == t.id) rows ≡ some t) (is_of account_id) rows
          (each_row_found rows unique))

  pub Chain-statement_of : Chain (statement_of account_id rows)
  unfolding statement_of
  Chain-statement_of =
      Chain-order_by (select_all (is_of account_id) rows)
        (IsUnique-select_all (is_of account_id) rows unique)

  module _ (before after : List Transaction) (row : Transaction)
      (e : before ++ row ∷ after ≡ statement_of account_id rows) where
    cursor_found : cursor_row env (some (encode_cursor env row.id)) rows ≡ some row
    cursor_found = ground (
      arith,
      decodes (env.uuid_text row.id),
      parses row.id,
      All-middle (λ t. select_one (λ x. x.id == t.id) rows ≡ some t) before after row
          (subst (All (λ t. select_one (λ x. x.id == t.id) rows ≡ some t)) (sym e)
            found_in_statement),
    )

    -- After the cursor of a row, what is older than the row is left.
    pending-next : pending (some (encode_cursor env row.id)) ≡ after
    unfolding matching_rows statement_of
    pending-next =
        ap (λ c. order_by older (select_all (λ t. is_of account_id t && is_after c t) rows))
          cursor_found
        ∙ ap (order_by older) (select_all-and (is_of account_id) (older row) rows)
        ∙ sym (
            select_all-order_by (older row) (select_all (is_of account_id) rows)
              (IsUnique-select_all (is_of account_id) rows unique))
        ∙ ap (select_all (older row)) (sym e)
        ∙ select_all-after before after row (subst Chain (sym e) Chain-statement_of)

-- A client that asks for page after page, with the cursor that the last page gave, until a page gives
-- none or the fuel is spent.
unfoldable pub read_pages :
    (Option String → Action (List Transaction × Option String))
    → ℕ
    → Option String
    → Action (List Transaction)
read_pages get_page zero cursor = pure []
read_pages get_page (suc fuel) cursor = do
  page ← get_page cursor
  elim page.1 [
    | none ↦ pure page.0
    | some next ↦ do rest ← read_pages get_page fuel (some next); pure (page.0 ++ rest)
  ]

module _ (env : Env) (account_id limit : ℕ) (s : Session)
    (unique : IsUnique same_id s.db.transactions)
    (decodes : (text : String) → env.b64decode (env.b64encode text) ≡ some text)
    (parses : (k : ℕ) → env.parse_uuid (env.uuid_text k) ≡ some k)
    (get_page : Option String → Action (List Transaction × Option String))
    (agrees : (cursor : Option String)
      → get_page cursor s ≡ get_by_account_id_paginated env account_id limit cursor s) where
  page_found :
      (cursor : Option String)
      → get_page cursor s
        ≡ (ok (page_of env limit (matching_rows env account_id cursor s.db.transactions)), s)
  unfolding get_by_account_id_paginated
  page_found cursor =
      agrees cursor
      ∙ ap (λ page. (ok page, s))
          (page_of-take env limit (matching_rows env account_id cursor s.db.transactions))

  pages_from :
      1 ≤ limit
      → (fuel : ℕ) (before after : List Transaction) (cursor : Option String)
      → before ++ after ≡ statement_of account_id s.db.transactions
      → matching_rows env account_id cursor s.db.transactions ≡ after
      → length after < fuel
      → read_pages get_page fuel cursor s ≡ (ok after, s)
  unfolding read_pages page_of
  pages_from positive zero before after cursor e k enough = absurd (omega arith)
  pages_from positive (suc fuel) before after cursor e k enough =
      elim (Bool-cases (ltb limit (length after))) [
        | inr done ↦
            ground (arith, page_found cursor, k, done, take-all limit after (ground (arith, done)))
        | inl more ↦
            let (first, row, rest, whole, page) =
              cut_page limit after positive (ground (arith, more)) in
            let joined =
              append_assoc before first (row ∷ rest) ∙ ap (λ x. before ++ x) (sym whole) ∙ e in
            let next =
              pages_from positive fuel ((before ++ first) ++ row ∷ []) rest
                (some (encode_cursor env row.id))
                (append_assoc (before ++ first) (row ∷ []) rest ∙ joined)
                (pending-next env account_id s.db.transactions unique decodes parses
                  (before ++ first) rest row joined)
                (rest_shorter first rest row after fuel whole enough) in
            ground (
              arith,
              page_found cursor,
              k,
              more,
              page,
              last_row-append first row,
              next,
              append_assoc first (row ∷ []) rest,
              whole,
            )
      ]

  -- With more fuel than there are rows, the whole statement is read.
  pub read_all_pages :
      1 ≤ limit
      → (fuel : ℕ) → length (statement_of account_id s.db.transactions) < fuel
      → read_pages get_page fuel none s ≡ (ok (statement_of account_id s.db.transactions), s)
  read_all_pages positive fuel enough =
      pages_from positive fuel [] (statement_of account_id s.db.transactions) none refl
        (pending-first env account_id s.db.transactions unique decodes parses) enough
