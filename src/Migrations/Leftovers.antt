-- ===== src/Migrations/Leftovers.antt =====
-- The revisions undone: the tables are gone, the enum types are not.
use mathlib.Core.Path.{sym}
use nexobank_backend.Base.{
  ◌≡◌, refl, ◌∙◌, ◌||◌, String, true, false, some, none, List, [], ◌∷◌, ◌++◌, arith, eq_iff,
  Bool-cases, inl, inr,
}
use nexobank_backend.Migrations.{Schema, has_name, enums_of, any_name, run}
use nexobank_backend.Migrations.Revisions.{
  index, audit_logs, users, accounts, refresh_tokens, cards, transactions, device_tokens,
  password_reset_tokens, upgrade_initial, downgrade_initial, upgrade_tokens, downgrade_tokens,
}
use nexobank_backend.Migrations.Undoing.{
  Plan, build, refuses, typed, front, indexed, built-first, refused-first, undo, Closed,
}

has_name-append :
    (n : String) (a b : List String) → has_name n (a ++ b) ≡ (has_name n a || has_name n b)
has_name-append n [] b = refl
has_name-append n (m ∷ a) b = ground (arith, has_name-append n a b)

taken_name :
    (n : String) (a taken : List String)
    → has_name n a ≡ true
    → has_name n taken ≡ true
    → any_name a taken ≡ true
taken_name n [] taken h k = ground arith
taken_name n (m ∷ a) taken h k = ground (arith, eq_iff m n, taken_name n a taken)

-- the enum types of a plan
abbrev types_of : List Plan → List String
types_of [] = []
types_of (p ∷ rest) = enums_of p.0.columns ++ types_of rest

types_left :
    (n : String) (plans : List Plan) (s s' : Schema)
    → (has_name n (types_of plans) || has_name n s.types) ≡ true
    → run (build plans) s ≡ some s'
    → has_name n s'.types ≡ true
unfolding run
types_left n [] s s' k h = ground arith
types_left n ((t, is) ∷ rest) s s' k h = elim (Bool-cases (refuses t s)) [
  | inl bad ↦ absurd (ground (arith, refused-first t is rest s bad))
  | inr ok ↦
      types_left n rest (front (indexed t is) (typed t s)) s'
        (ground (
          arith,
          has_name-append n (enums_of t.columns) (types_of rest),
          has_name-append n (enums_of t.columns) s.types,
        ))
        (sym (built-first t is rest s ok) ∙ h)
]

-- A type that is there already stops the plan.
stopped :
    (n : String) (plans : List Plan) (s : Schema)
    → has_name n (types_of plans) ≡ true
    → has_name n s.types ≡ true
    → run (build plans) s ≡ none
stopped n [] s h k = ground arith
stopped n ((t, is) ∷ rest) s h k = elim (Bool-cases (refuses t s)) [
  | inl bad ↦ refused-first t is rest s bad
  | inr ok ↦
      built-first t is rest s ok
      ∙ stopped n rest (front (indexed t is) (typed t s))
          (ground (
            arith,
            has_name-append n (enums_of t.columns) (types_of rest),
            taken_name n (enums_of t.columns) s.types,
          ))
          (ground (arith, has_name-append n (enums_of t.columns) s.types))
]

-- the plans of the two revisions
plan_initial : List Plan
plan_initial =
    (
      audit_logs,
      index "ix_audit_logs_action" ("action" ∷ []) false
          ∷ index "ix_audit_logs_created_at" ("created_at" ∷ []) false
          ∷ index "ix_audit_logs_user_id" ("user_id" ∷ []) false
          ∷ [],
    )
    ∷ (
      users,
      index "ix_users_email" ("email" ∷ []) true
          ∷ index "ix_users_status" ("status" ∷ []) false
          ∷ [],
    )
    ∷ (
      accounts,
      index "ix_accounts_account_number" ("account_number" ∷ []) true
          ∷ index "ix_accounts_user_id" ("user_id" ∷ []) false
          ∷ [],
    )
    ∷ (
      refresh_tokens,
      index "ix_refresh_tokens_token_hash" ("token_hash" ∷ []) true
          ∷ index "ix_refresh_tokens_user_id" ("user_id" ∷ []) false
          ∷ [],
    )
    ∷ (cards, index "ix_cards_account_id" ("account_id" ∷ []) false ∷ [])
    ∷ (
      transactions,
      index "ix_transactions_account_id" ("account_id" ∷ []) false
          ∷ index "ix_transactions_account_id_created_at" ("account_id" ∷ "created_at" ∷ []) false
          ∷ index "ix_transactions_idempotency_key" ("idempotency_key" ∷ []) true
          ∷ [],
    )
    ∷ []

plan_tokens : List Plan
plan_tokens =
    (
      device_tokens,
      index "ix_device_tokens_token" ("token" ∷ []) true
          ∷ index "ix_device_tokens_user_id" ("user_id" ∷ []) false
          ∷ [],
    )
    ∷ (
      password_reset_tokens,
      index "ix_password_reset_tokens_token_hash" ("token_hash" ∷ []) true
          ∷ index "ix_password_reset_tokens_user_id" ("user_id" ∷ []) false
          ∷ [],
    )
    ∷ []

-- On a schema whose foreign keys refer to its tables: after the first revision, where it applies, its
-- downgrade applies and leaves the tables as they were before. It leaves the enum types that the
-- revision made, so that the revision does not apply again.
pub downgrade_initial_undoes :
    (s s' : Schema)
    → Closed s.tables s.tables
    → run upgrade_initial s ≡ some s'
    → (run downgrade_initial s' ≡ some (record s { types = s'.types }))
      × (run upgrade_initial (record s { types = s'.types }) ≡ none)
unfolding upgrade_initial downgrade_initial plan_initial
downgrade_initial_undoes s s' c h = (
  undo plan_initial s s' c h,
  stopped "user_status" plan_initial (record s { types = s'.types }) refl
      (types_left "user_status" plan_initial s s' refl h),
)

-- … and the same of the second revision.
pub downgrade_tokens_undoes :
    (s s' : Schema)
    → Closed s.tables s.tables
    → run upgrade_tokens s ≡ some s'
    → (run downgrade_tokens s' ≡ some (record s { types = s'.types }))
      × (run upgrade_tokens (record s { types = s'.types }) ≡ none)
unfolding upgrade_tokens downgrade_tokens plan_tokens
downgrade_tokens_undoes s s' c h = (
  undo plan_tokens s s' c h,
  stopped "device_platform" plan_tokens (record s { types = s'.types }) refl
      (types_left "device_platform" plan_tokens s s' refl h),
)
