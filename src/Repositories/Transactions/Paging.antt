-- ===== src/Repositories/Transactions/Paging.antt =====
-- `get_by_account_id_paginated` of app/repositories/transaction_repository.py and its cursor.
pub mod Ordering
pub mod Cutting
pub mod Reading
use nexobank_backend.Base.{
  ℕ, ◌+◌, String, Bool, true, ◌&&◌, ◌||◌, Option, none, some, List, [], ◌∷◌, ltb, ◌==◌, select_one,
  select_all, length, take, order_by, if◌then◌else◌,
}
use nexobank_backend.Models.{Transaction}
use nexobank_backend.Session.{Env, Action, gets}

-- `(created_at < row.created_at) | ((created_at == row.created_at) & (id < row.id))`
abbrev pub older : Transaction → Transaction → Bool
older row t = ltb t.created_at row.created_at || (t.created_at == row.created_at && ltb t.id row.id)

abbrev pub is_of : ℕ → Transaction → Bool
is_of account_id t = t.account_id == account_id

-- what the cursor row adds to the query
abbrev pub is_after : Option Transaction → Transaction → Bool
is_after none t = true
is_after (some row) t = older row t

-- `items[-1]`
abbrev pub last_row : List Transaction → Option Transaction
last_row [] = none
last_row (t ∷ []) = some t
last_row (t ∷ u ∷ rows) = last_row (u ∷ rows)

module _ (env : Env) where
  -- `_encode_cursor` and `_decode_cursor`
  abbrev pub encode_cursor : ℕ → String
  encode_cursor transaction_id = env.b64encode (env.uuid_text transaction_id)

  abbrev pub decode_cursor : String → Option ℕ
  decode_cursor cursor = elim (env.b64decode cursor) [
    | none ↦ none
    | some decoded ↦ env.parse_uuid decoded
  ]

  -- the row of the cursor, if there is a cursor, it decodes, and it names a row
  abbrev pub row_with_id : Option ℕ → List Transaction → Option Transaction
  row_with_id none rows = none
  row_with_id (some id) rows = select_one (λ t. t.id == id) rows

  abbrev pub cursor_row : Option String → List Transaction → Option Transaction
  cursor_row none rows = none
  cursor_row (some cursor) rows = row_with_id (decode_cursor cursor) rows

  -- the rows of the query before its LIMIT: `ORDER BY created_at DESC, id DESC`
  unfoldable pub matching_rows : ℕ → Option String → List Transaction → List Transaction
  matching_rows account_id cursor rows =
      order_by older
        (select_all (λ t. is_of account_id t && is_after (cursor_row cursor rows) t) rows)

  abbrev pub cursor_of : Option Transaction → Option String
  cursor_of none = none
  cursor_of (some t) = some (encode_cursor t.id)

  -- the page out of the rows that the query returns
  unfoldable pub page_of : ℕ → List Transaction → List Transaction × Option String
  page_of limit rows = (
    take limit rows,
    if ltb limit (length rows) then cursor_of (last_row (take limit rows)) else none,
  )

  -- `get_by_account_id_paginated`
  unfoldable pub get_by_account_id_paginated :
      ℕ → ℕ → Option String → Action (List Transaction × Option String)
  get_by_account_id_paginated account_id limit cursor =
      gets
        (λ db. page_of limit (take (limit + 1) (matching_rows account_id cursor db.transactions)))
