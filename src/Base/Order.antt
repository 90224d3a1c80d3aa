-- ===== src/Base/Order.antt =====
-- `ORDER BY` as a stable insertion sort, and lengths of lists.
use Prim.Native.Nat.{ℕ, zero, suc}
use mathlib.Core.Path.{◌≡◌, refl, ap, ◌∙◌}
use mathlib.Core.Bool.{Bool}
use mathlib.Core.List.{List, [], ◌∷◌}
use native.Mathlib.Omega.{arith}
use nexobank_backend.Base.Tests.{if◌then◌else◌}

module _ {R : Type 0} where
  abbrev pub length : List R → ℕ
  length [] = 0
  length (x ∷ xs) = suc (length xs)

  abbrev pub take : ℕ → List R → List R
  take zero xs = []
  take (suc n) [] = []
  take (suc n) (x ∷ xs) = x ∷ take n xs

  -- `before x y`: the row `x` may stand in front of `y`.
  abbrev pub insert_row : (R → R → Bool) → R → List R → List R
  insert_row before r [] = r ∷ []
  insert_row before r (x ∷ xs) = if before r x then r ∷ x ∷ xs else x ∷ insert_row before r xs

  abbrev pub order_by : (R → R → Bool) → List R → List R
  order_by before [] = []
  order_by before (x ∷ xs) = insert_row before x (order_by before xs)

  length-insert_row :
      (before : R → R → Bool) (r : R) (xs : List R)
      → length (insert_row before r xs) ≡ suc (length xs)
  length-insert_row before r [] = refl
  length-insert_row before r (x ∷ xs) = ground (arith, length-insert_row before r xs)

  pub length-order_by :
      (before : R → R → Bool) (xs : List R) → length (order_by before xs) ≡ length xs
  length-order_by before [] = refl
  length-order_by before (x ∷ xs) =
      length-insert_row before x (order_by before xs) ∙ ap suc (length-order_by before xs)
