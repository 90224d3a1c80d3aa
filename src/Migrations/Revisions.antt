-- ===== src/Migrations/Revisions.antt =====
-- The two revisions of alembic/versions/, operation by operation. The three columns that every table
-- ends with (`id`, `created_at`, `updated_at`) are appended by `table`.
use nexobank_backend.Base.{String, Bool, true, false, List, [], ◌∷◌, ◌++◌}
use nexobank_backend.Migrations.{
  ColumnType, uuid, jsonb, timestamp, date, boolean, string, numeric, enum, Column, OnDelete,
  restrict, cascade, set_null, ForeignKey, Index, Table, Op, create_table, create_index, drop_index,
  drop_table,
}

abbrev pub column : String → ColumnType → Bool → Column
column name type nullable = record { name = name; type = type; nullable = nullable }

abbrev pub key : String → String → OnDelete → ForeignKey
key name references on_delete = record {
  column = name;
  references = references;
  on_delete = on_delete;
}

abbrev pub index : String → List String → Bool → Index
index name columns is_unique = record { name = name; columns = columns; is_unique = is_unique }

abbrev pub table : String → List Column → List ForeignKey → List String → Table
table name columns foreign_keys uniques = record {
  name = name;
  columns =
      columns
      ++ column "id" uuid false
        ∷ column "created_at" timestamp false
        ∷ column "updated_at" timestamp false
        ∷ [];
  foreign_keys = foreign_keys;
  uniques = uniques;
  indexes = [];
}

abbrev pub audit_logs : Table
audit_logs =
    table "audit_logs"
      (column "user_id" uuid true
        ∷ column "action" (string 100) false
        ∷ column "entity_type" (string 50) true
        ∷ column "entity_id" uuid true
        ∷ column "ip_address" (string 45) true
        ∷ column "metadata" jsonb true
        ∷ [])
      ([]) ([])

abbrev pub users : Table
users =
    table "users"
      (column "email" (string 255) false
        ∷ column "password_hash" (string 255) false
        ∷ column "full_name" (string 255) false
        ∷ column "phone" (string 30) true
        ∷ column "status" (enum "user_status" ("active" ∷ "inactive" ∷ "suspended" ∷ [])) false
        ∷ column "role" (enum "user_role" ("customer" ∷ "admin" ∷ [])) false
        ∷ [])
      ([]) ("email" ∷ [])

abbrev pub accounts : Table
accounts =
    table "accounts"
      (column "user_id" uuid false
        ∷ column "account_number" (string 20) false
        ∷ column "currency" (string 3) false
        ∷ column "balance" (numeric 18 2) false
        ∷ column "status" (enum "account_status" ("active" ∷ "frozen" ∷ "closed" ∷ [])) false
        ∷ column "type" (enum "account_type" ("checking" ∷ "savings" ∷ [])) false
        ∷ [])
      (key "user_id" "users" restrict ∷ []) ("account_number" ∷ [])

abbrev pub refresh_tokens : Table
refresh_tokens =
    table "refresh_tokens"
      (column "user_id" uuid false
        ∷ column "token_hash" (string 64) false
        ∷ column "expires_at" timestamp false
        ∷ column "revoked" boolean false
        ∷ [])
      (key "user_id" "users" cascade ∷ []) ("token_hash" ∷ [])

abbrev pub cards : Table
cards =
    table "cards"
      (column "account_id" uuid false
        ∷ column "last4" (string 4) false
        ∷ column "type" (enum "card_type" ("debit" ∷ "credit" ∷ [])) false
        ∷ column "status" (enum "card_status" ("active" ∷ "frozen" ∷ "cancelled" ∷ [])) false
        ∷ column "expires_at" date false
        ∷ [])
      (key "account_id" "accounts" restrict ∷ []) ([])

abbrev pub transactions : Table
transactions =
    table "transactions"
      (column "account_id" uuid false
        ∷ column "counterparty_account_id" uuid true
        ∷ column "type"
            (enum "transactiontype"
              ("deposit" ∷ "withdrawal" ∷ "transfer_out" ∷ "transfer_in" ∷ []))
            false
        ∷ column "amount" (numeric 18 2) false
        ∷ column "status" (enum "transactionstatus" ("pending" ∷ "completed" ∷ "reversed" ∷ []))
            false
        ∷ column "idempotency_key" (string 64) true
        ∷ column "reference_transaction_id" uuid true
        ∷ column "description" (string 255) true
        ∷ [])
      (key "account_id" "accounts" restrict
        ∷ key "counterparty_account_id" "accounts" set_null
        ∷ key "reference_transaction_id" "transactions" restrict
        ∷ [])
      ("idempotency_key" ∷ [])

-- `upgrade` and `downgrade` of the revision
unfoldable pub upgrade_initial : List Op
upgrade_initial =
    create_table audit_logs
    ∷ create_index "audit_logs" (index "ix_audit_logs_action" ("action" ∷ []) false)
    ∷ create_index "audit_logs" (index "ix_audit_logs_created_at" ("created_at" ∷ []) false)
    ∷ create_index "audit_logs" (index "ix_audit_logs_user_id" ("user_id" ∷ []) false)
    ∷ create_table users
    ∷ create_index "users" (index "ix_users_email" ("email" ∷ []) true)
    ∷ create_index "users" (index "ix_users_status" ("status" ∷ []) false)
    ∷ create_table accounts
    ∷ create_index "accounts" (index "ix_accounts_account_number" ("account_number" ∷ []) true)
    ∷ create_index "accounts" (index "ix_accounts_user_id" ("user_id" ∷ []) false)
    ∷ create_table refresh_tokens
    ∷ create_index "refresh_tokens" (index "ix_refresh_tokens_token_hash" ("token_hash" ∷ []) true)
    ∷ create_index "refresh_tokens" (index "ix_refresh_tokens_user_id" ("user_id" ∷ []) false)
    ∷ create_table cards
    ∷ create_index "cards" (index "ix_cards_account_id" ("account_id" ∷ []) false)
    ∷ create_table transactions
    ∷ create_index "transactions" (index "ix_transactions_account_id" ("account_id" ∷ []) false)
    ∷ create_index "transactions"
        (index "ix_transactions_account_id_created_at" ("account_id" ∷ "created_at" ∷ []) false)
    ∷ create_index "transactions"
        (index "ix_transactions_idempotency_key" ("idempotency_key" ∷ []) true)
    ∷ []

unfoldable pub downgrade_initial : List Op
downgrade_initial =
    drop_index "ix_transactions_idempotency_key" "transactions"
    ∷ drop_index "ix_transactions_account_id_created_at" "transactions"
    ∷ drop_index "ix_transactions_account_id" "transactions"
    ∷ drop_table "transactions"
    ∷ drop_index "ix_cards_account_id" "cards"
    ∷ drop_table "cards"
    ∷ drop_index "ix_refresh_tokens_user_id" "refresh_tokens"
    ∷ drop_index "ix_refresh_tokens_token_hash" "refresh_tokens"
    ∷ drop_table "refresh_tokens"
    ∷ drop_index "ix_accounts_user_id" "accounts"
    ∷ drop_index "ix_accounts_account_number" "accounts"
    ∷ drop_table "accounts"
    ∷ drop_index "ix_users_status" "users"
    ∷ drop_index "ix_users_email" "users"
    ∷ drop_table "users"
    ∷ drop_index "ix_audit_logs_user_id" "audit_logs"
    ∷ drop_index "ix_audit_logs_created_at" "audit_logs"
    ∷ drop_index "ix_audit_logs_action" "audit_logs"
    ∷ drop_table "audit_logs"
    ∷ []

abbrev pub device_tokens : Table
device_tokens =
    table "device_tokens"
      (column "user_id" uuid false
        ∷ column "token" (string 512) false
        ∷ column "platform" (enum "device_platform" ("ios" ∷ "android" ∷ "web" ∷ [])) false
        ∷ column "active" boolean false
        ∷ [])
      (key "user_id" "users" cascade ∷ []) ("token" ∷ [])

abbrev pub password_reset_tokens : Table
password_reset_tokens =
    table "password_reset_tokens"
      (column "user_id" uuid false
        ∷ column "token_hash" (string 64) false
        ∷ column "expires_at" timestamp false
        ∷ column "used" boolean false
        ∷ [])
      (key "user_id" "users" cascade ∷ []) ("token_hash" ∷ [])

-- `upgrade` and `downgrade` of the revision
unfoldable pub upgrade_tokens : List Op
upgrade_tokens =
    create_table device_tokens
    ∷ create_index "device_tokens" (index "ix_device_tokens_token" ("token" ∷ []) true)
    ∷ create_index "device_tokens" (index "ix_device_tokens_user_id" ("user_id" ∷ []) false)
    ∷ create_table password_reset_tokens
    ∷ create_index "password_reset_tokens"
        (index "ix_password_reset_tokens_token_hash" ("token_hash" ∷ []) true)
    ∷ create_index "password_reset_tokens"
        (index "ix_password_reset_tokens_user_id" ("user_id" ∷ []) false)
    ∷ []

unfoldable pub downgrade_tokens : List Op
downgrade_tokens =
    drop_index "ix_password_reset_tokens_user_id" "password_reset_tokens"
    ∷ drop_index "ix_password_reset_tokens_token_hash" "password_reset_tokens"
    ∷ drop_table "password_reset_tokens"
    ∷ drop_index "ix_device_tokens_user_id" "device_tokens"
    ∷ drop_index "ix_device_tokens_token" "device_tokens"
    ∷ drop_table "device_tokens"
    ∷ []
