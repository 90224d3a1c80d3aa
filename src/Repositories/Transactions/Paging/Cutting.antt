-- ===== src/Repositories/Transactions/Paging/Cutting.antt =====
-- A page as the front of a list of rows: where it is cut, and its last row.
use mathlib.Core.Path.{ap}
use nexobank_backend.Base.{
  ℕ, zero, suc, ◌+◌, ◌≤◌, ◌<◌, ◌≡◌, refl, true, some, List, [], ◌∷◌, ◌++◌, arith, ltb, select_all,
  length, take,
}
use nexobank_backend.Models.{Transaction}
use nexobank_backend.Session.{Env}
use nexobank_backend.Repositories.Transactions.Paging.{last_row, page_of}

-- a list that is longer than a page of at least one row, cut at the page's last row
pub cut_page :
    (limit : ℕ) (rows : List Transaction)
    → 1 ≤ limit
    → limit < length rows
    → (before : List Transaction) × (row : Transaction) × (after : List Transaction) × (rows
        ≡ before ++ row ∷ after)
      × (take limit rows ≡ before ++ row ∷ [])
cut_page zero rows p h = absurd (omega arith)
cut_page (suc n) [] p h = absurd (omega arith)
cut_page (suc zero) (t ∷ rows) p h = ([], t, rows, refl, refl)
cut_page (suc (suc n)) (t ∷ rows) p h =
    let (before, row, after, e, k) = cut_page (suc n) rows (omega arith) (omega arith) in
    (t ∷ before, row, after, ap (λ x. t ∷ x) e, ap (λ x. t ∷ x) k)

length-after :
    (before after : List Transaction) (row : Transaction)
    → length after < length (before ++ row ∷ after)
length-after [] after row = omega arith
length-after (t ∷ before) after row = omega (arith, length-after before after row)

pub rest_shorter :
    (before after : List Transaction) (row : Transaction) (whole : List Transaction) (fuel : ℕ)
    → whole ≡ before ++ row ∷ after
    → length whole < suc fuel
    → length after < fuel
rest_shorter before after row whole fuel e h =
    omega (arith, ap length e, length-after before after row)

pub last_row-append :
    (before : List Transaction) (row : Transaction) → last_row (before ++ row ∷ []) ≡ some row
last_row-append [] row = refl
last_row-append (t ∷ []) row = refl
last_row-append (t ∷ u ∷ before) row = last_row-append (u ∷ before) row

pub take-all : (n : ℕ) (rows : List Transaction) → length rows ≤ n → take n rows ≡ rows
take-all zero [] h = refl
take-all zero (t ∷ rows) h = absurd (omega arith)
take-all (suc n) [] h = refl
take-all (suc n) (t ∷ rows) h = ap (λ x. t ∷ x) (take-all n rows (omega arith))

-- The extra row is there exactly when the list is longer than the page, and it is not on the page.
take-take : (n : ℕ) (rows : List Transaction) → take n (take (suc n) rows) ≡ take n rows
take-take zero rows = refl
take-take (suc n) [] = refl
take-take (suc n) (t ∷ rows) = ap (λ x. t ∷ x) (take-take n rows)

longer-take :
    (n : ℕ) (rows : List Transaction) → ltb n (length (take (suc n) rows)) ≡ ltb n (length rows)
longer-take zero [] = refl
longer-take zero (t ∷ rows) = ground (arith)
longer-take (suc n) [] = refl
longer-take (suc n) (t ∷ rows) = ground (arith, longer-take n rows)

pub page_of-take :
    (env : Env) (n : ℕ) (rows : List Transaction)
    → page_of env n (take (n + 1) rows) ≡ page_of env n rows
unfolding page_of
page_of-take env n rows =
    ground (arith, ap (λ m. take m rows) (one_more n), take-take n rows, longer-take n rows)
  where
    one_more : (m : ℕ) → m + 1 ≡ suc m
    one_more m = omega arith

pub select_all-true : (rows : List Transaction) → select_all (λ t. true) rows ≡ rows
select_all-true [] = refl
select_all-true (t ∷ rows) = ap (λ x. t ∷ x) (select_all-true rows)
