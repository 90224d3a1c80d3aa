-- ===== src/Base/Table.antt =====
-- A table of the database as the list of its rows, in the order of insertion, and the laws of the
-- queries that the repositories make.
use mathlib.Core.Path.{◌≡◌, refl}
use mathlib.Core.Bool.{Bool, true, false, ◌||◌}
use mathlib.Core.Option.{Option, none, some}
use mathlib.Core.List.{List, [], ◌∷◌, ◌++◌}
use native.Mathlib.Omega.{arith}
use nexobank_backend.Base.Tests.{if◌then◌else◌}

module _ {R : Type 0} where
  -- `SELECT … WHERE test` on a unique column, then `scalar_one_or_none()`
  abbrev pub select_one : (R → Bool) → List R → Option R
  select_one test [] = none
  select_one test (r ∷ t) = if test r then some r else select_one test t

  -- `SELECT … WHERE test`, then `scalars().all()`
  abbrev pub select_all : (R → Bool) → List R → List R
  select_all test [] = []
  select_all test (r ∷ t) = let rest = select_all test t in if test r then r ∷ rest else rest

  -- `UPDATE … SET … WHERE test`
  abbrev pub update_where : (R → Bool) → (R → R) → List R → List R
  update_where test f [] = []
  update_where test f (r ∷ t) = (if test r then f r else r) ∷ update_where test f t

  -- what a unique index looks for before an insert
  abbrev pub has_row : (R → Bool) → List R → Bool
  has_row test [] = false
  has_row test (r ∷ t) = test r || has_row test t

  abbrev pub or_else : Option R → Option R → Option R
  or_else none b = b
  or_else (some a) b = some a

  -- An insert adds to what a query finds.
  pub select_one-append :
      (test : R → Bool) (t u : List R)
      → select_one test (t ++ u) ≡ or_else (select_one test t) (select_one test u)
  select_one-append test [] u = refl
  select_one-append test (r ∷ t) u = ground (arith, select_one-append test t u)

  pub select_one_holds :
      (test : R → Bool) (t : List R) (r : R) → select_one test t ≡ some r → test r ≡ true
  select_one_holds test [] r h = ground arith
  select_one_holds test (x ∷ t) r h = ground (arith, select_one_holds test t r)

  pub select_one-none_of_has_row :
      (test : R → Bool) (t : List R) → has_row test t ≡ false → select_one test t ≡ none
  select_one-none_of_has_row test [] h = refl
  select_one-none_of_has_row test (r ∷ t) h = ground (arith, select_one-none_of_has_row test t)

  pub has_row-false_of_select_one :
      (test : R → Bool) (t : List R) → select_one test t ≡ none → has_row test t ≡ false
  has_row-false_of_select_one test [] h = refl
  has_row-false_of_select_one test (r ∷ t) h = ground (arith, has_row-false_of_select_one test t)

  pub has_row_of_select_one :
      (test : R → Bool) (t : List R) (r : R) → select_one test t ≡ some r → has_row test t ≡ true
  has_row_of_select_one test [] r h = absurd (ground arith)
  has_row_of_select_one test (x ∷ t) r h = ground (arith, has_row_of_select_one test t r)

  pub has_row-append :
      (test : R → Bool) (t u : List R) → has_row test (t ++ u) ≡ (has_row test t || has_row test u)
  has_row-append test [] u = refl
  has_row-append test (r ∷ t) u = ground (arith, has_row-append test t u)

  -- An update that the query does not look at leaves the choice of the row alone.
  pub select_one-update_where :
      (test q : R → Bool) (f : R → R) (t : List R)
      → ((r : R) → test (f r) ≡ test r)
      → select_one test (update_where q f t)
        ≡ elim (select_one test t) [ none ↦ none | some r ↦ some (if q r then f r else r) ]
  select_one-update_where test q f [] h = refl
  select_one-update_where test q f (r ∷ t) h =
      ground (arith, h r, select_one-update_where test q f t h)

  pub has_row-update_where :
      (test q : R → Bool) (f : R → R) (t : List R)
      → ((r : R) → test (f r) ≡ test r)
      → has_row test (update_where q f t) ≡ has_row test t
  has_row-update_where test q f [] h = refl
  has_row-update_where test q f (r ∷ t) h = ground (arith, h r, has_row-update_where test q f t h)

  has_row-congr : (p q : R → Bool) (t : List R) → ((r : R) → p r ≡ q r) → has_row p t ≡ has_row q t
  has_row-congr p q [] h = refl
  has_row-congr p q (r ∷ t) h = ground (arith, h r, has_row-congr p q t h)

  -- No two rows have the same key: the unique index of a column.
  abbrev pub IsUnique : (R → R → Bool) → List R → Type 0
  IsUnique same [] = Unit
  IsUnique same (r ∷ t) = (has_row (same r) t ≡ false) × IsUnique same t

  pub IsUnique-append :
      (same : R → R → Bool) (t : List R) (r : R)
      → ((x : R) → same x r ≡ same r x)
      → IsUnique same t
      → has_row (same r) t ≡ false
      → IsUnique same (t ++ r ∷ [])
  IsUnique-append same [] r comm u h = (refl, tt)
  IsUnique-append same (x ∷ t) r comm u h =
      ground (arith, comm x, has_row-append (same x) t (r ∷ []), IsUnique-append same t r comm u.1)

  pub IsUnique-update_where :
      (same : R → R → Bool) (q : R → Bool) (f : R → R) (t : List R)
      → ((x y : R) → same x (f y) ≡ same x y)
      → ((x y : R) → same (f x) y ≡ same x y)
      → IsUnique same t
      → IsUnique same (update_where q f t)
  IsUnique-update_where same q f [] l r u = tt
  IsUnique-update_where same q f (x ∷ t) l r u = ground (
    arith,
    keep x,
    keep (f x),
    has_row-congr (same (f x)) (same x) t (r x),
    IsUnique-update_where same q f t l r u.1,
  )
    where
      keep : (y : R) → has_row (same y) (update_where q f t) ≡ has_row (same y) t
      keep y = has_row-update_where (same y) q f t (l y)
