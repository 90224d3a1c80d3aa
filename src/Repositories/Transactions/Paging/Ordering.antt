-- ===== src/Repositories/Transactions/Paging/Ordering.antt =====
-- Newest first: the sorted rows form a chain, and a filter may come before or after the sort.
use nexobank_backend.Base.{
  ◌≡◌, refl, Bool, true, false, ◌&&◌, List, [], ◌∷◌, ◌++◌, arith, select_all, has_row, IsUnique,
  insert_row, order_by, if◌then◌else◌, Bool-cases, inl, inr,
}
use nexobank_backend.Models.{Transaction}
use nexobank_backend.Repositories.Transactions.{same_id}
use nexobank_backend.Repositories.Transactions.Paging.{older}

abbrev pub All : (Transaction → Type 0) → List Transaction → Type 0
All Q [] = Unit
All Q (t ∷ rows) = Q t × All Q rows

-- each row is newer than all that follow
abbrev pub Chain : List Transaction → Type 0
Chain [] = Unit
Chain (t ∷ rows) = All (λ u. older t u ≡ true) rows × Chain rows

pub All-map :
    (P Q : Transaction → Type 0) (rows : List Transaction)
    → ((t : Transaction) → P t → Q t)
    → All P rows
    → All Q rows
All-map P Q [] f a = tt
All-map P Q (t ∷ rows) f a = (f t a.0, All-map P Q rows f a.1)

pub All-select_all :
    (P : Transaction → Type 0) (q : Transaction → Bool) (rows : List Transaction)
    → All P rows
    → All P (select_all q rows)
All-select_all P q [] a = tt
All-select_all P q (t ∷ rows) a =
    elim (q t) as (λ b. All P (if b then t ∷ select_all q rows else select_all q rows)) [
      | true ↦ (a.0, All-select_all P q rows a.1)
      | false ↦ All-select_all P q rows a.1
    ]

All-insert_row :
    (P : Transaction → Type 0) (r : Transaction) (rows : List Transaction)
    → P r
    → All P rows
    → All P (insert_row older r rows)
All-insert_row P r [] p a = (p, tt)
All-insert_row P r (t ∷ rows) p a =
    elim (older r t) as (λ b. All P (if b then r ∷ t ∷ rows else t ∷ insert_row older r rows)) [
      | true ↦ (p, a)
      | false ↦ (a.0, All-insert_row P r rows p a.1)
    ]

pub All-order_by :
    (P : Transaction → Type 0) (rows : List Transaction) → All P rows → All P (order_by older rows)
All-order_by P [] a = tt
All-order_by P (t ∷ rows) a = All-insert_row P t (order_by older rows) a.0 (All-order_by P rows a.1)

older_trans : (a b c : Transaction) → older a b ≡ true → older b c ≡ true → older a c ≡ true
older_trans a b c h k = ground (arith)

pub older_asym : (a b : Transaction) → older a b ≡ true → older b a ≡ false
older_asym a b h = ground (arith)

pub older_irrefl : (a : Transaction) → older a a ≡ false
older_irrefl a = ground (arith)

older_total : (a b : Transaction) → older a b ≡ false → same_id a b ≡ false → older b a ≡ true
older_total a b h k = ground (arith)

pub distinct_rows :
    (r : Transaction) (rows : List Transaction)
    → has_row (same_id r) rows ≡ false
    → All (λ t. same_id r t ≡ false) rows
distinct_rows r [] h = tt
distinct_rows r (t ∷ rows) h = (ground (arith), distinct_rows r rows (ground (arith)))

Chain-insert_row :
    (r : Transaction) (rows : List Transaction)
    → All (λ t. same_id r t ≡ false) rows
    → Chain rows
    → Chain (insert_row older r rows)
Chain-insert_row r [] d c = (tt, tt)
Chain-insert_row r (t ∷ rows) d c =
    elim (older r t)
        as (λ b. older r t ≡ b → Chain (if b then r ∷ t ∷ rows else t ∷ insert_row older r rows)) [
          | true ↦ λ e. (
            (
              e,
              All-map (λ u. older t u ≡ true) (λ u. older r u ≡ true) rows
                  (λ u k. older_trans r t u e k) c.0,
            ),
            c,
          )
          | false ↦ λ e. (
            All-insert_row (λ u. older t u ≡ true) r rows (older_total r t e d.0) c.0,
            Chain-insert_row r rows d.1 c.1,
          )
        ]
      refl

-- Rows with distinct ids are a chain once they are sorted.
pub Chain-order_by : (rows : List Transaction) → IsUnique same_id rows → Chain (order_by older rows)
Chain-order_by [] u = tt
Chain-order_by (t ∷ rows) u =
    Chain-insert_row t (order_by older rows)
      (All-order_by (λ x. same_id t x ≡ false) rows (distinct_rows t rows u.0))
      (Chain-order_by rows u.1)

insert_row-front :
    (r : Transaction) (rows : List Transaction)
    → All (λ u. older r u ≡ true) rows
    → insert_row older r rows ≡ r ∷ rows
insert_row-front r [] a = refl
insert_row-front r (t ∷ rows) a = ground (arith, a.0)

select_all-insert_row :
    (q : Transaction → Bool) (r : Transaction) (rows : List Transaction)
    → Chain rows
    → select_all q (insert_row older r rows)
      ≡ (if q r then insert_row older r (select_all q rows) else select_all q rows)
select_all-insert_row q r [] c = ground (arith)
select_all-insert_row q r (t ∷ rows) c = elim (Bool-cases (older r t)) [
  | inl e ↦ ground (
    arith,
    e,
    insert_row-front r (select_all q rows) (
        All-select_all (λ u. older r u ≡ true) q rows
          (All-map (λ u. older t u ≡ true) (λ u. older r u ≡ true) rows
            (λ u k. older_trans r t u e k) c.0)),
  )
  | inr e ↦ ground (arith, e, select_all-insert_row q r rows c.1)
]

-- A filter may come before or after the sort.
pub select_all-order_by :
    (q : Transaction → Bool) (rows : List Transaction)
    → IsUnique same_id rows
    → select_all q (order_by older rows) ≡ order_by older (select_all q rows)
select_all-order_by q [] u = refl
select_all-order_by q (t ∷ rows) u = ground (
  arith,
  select_all-insert_row q t (order_by older rows) (Chain-order_by rows u.1),
  select_all-order_by q rows u.1,
)

pub select_all-and :
    (p q : Transaction → Bool) (rows : List Transaction)
    → select_all (λ t. p t && q t) rows ≡ select_all q (select_all p rows)
select_all-and p q [] = refl
select_all-and p q (t ∷ rows) = ground (arith, select_all-and p q rows)

has_row-select_all :
    (p q : Transaction → Bool) (rows : List Transaction)
    → has_row q rows ≡ false
    → has_row q (select_all p rows) ≡ false
has_row-select_all p q [] h = refl
has_row-select_all p q (t ∷ rows) h = ground (arith, has_row-select_all p q rows)

pub IsUnique-select_all :
    (p : Transaction → Bool) (rows : List Transaction)
    → IsUnique same_id rows
    → IsUnique same_id (select_all p rows)
IsUnique-select_all p [] u = tt
IsUnique-select_all p (t ∷ rows) u =
    elim (p t) as (λ b. IsUnique same_id (if b then t ∷ select_all p rows else select_all p rows)) [
      | true ↦ (has_row-select_all p (same_id t) rows u.0, IsUnique-select_all p rows u.1)
      | false ↦ IsUnique-select_all p rows u.1
    ]

selected_whole :
    (q : Transaction → Bool) (rows : List Transaction)
    → All (λ u. q u ≡ true) rows
    → select_all q rows ≡ rows
selected_whole q [] a = refl
selected_whole q (t ∷ rows) a = ground (arith, a.0, selected_whole q rows a.1)

pub All-middle :
    (P : Transaction → Type 0) (before after : List Transaction) (row : Transaction)
    → All P (before ++ row ∷ after)
    → P row
All-middle P [] after row a = a.0
All-middle P (t ∷ before) after row a = All-middle P before after row a.1

-- What comes after a row of a chain is what is older than it.
pub select_all-after :
    (before after : List Transaction) (row : Transaction)
    → Chain (before ++ row ∷ after)
    → select_all (older row) (before ++ row ∷ after) ≡ after
select_all-after [] after row c =
    ground (arith, older_irrefl row, selected_whole (older row) after c.0)
select_all-after (t ∷ before) after row c = ground (
  arith,
  older_asym t row (All-middle (λ u. older t u ≡ true) before after row c.0),
  select_all-after before after row c.1,
)
