-- ===== src/Money.antt =====
-- Amounts of money: Python's `Decimal`, the column type `Numeric(18, 2)`, and the rounding between.
-- A finite Decimal is `coefficient * 10 ^ exponent`; a column holds whole cents, so it is an integer.
pub mod Context
pub mod Rounding
use nexobank_backend.Base.{
  ℕ, zero, suc, ◌+◌, ◌*◌, ◌/◌, ◌%◌, ◌^◌, ℤ, pos, negsuc, pos_part, neg_part, ◌+ℤ◌, ltb, ◌==◌, Bool,
  true, false, ◌&&◌, ◌||◌, if◌then◌else◌,
}

pub record Decimal : Type 0 where
  pub coefficient : ℤ
  pub exponent : ℤ

-- n / m, rounded to the nearest integer, and a half upwards
unfoldable pub round_half_up : ℕ → ℕ → ℕ
round_half_up n m = (2 * n + m) / (2 * m)

abbrev pub negate : ℕ → ℤ
negate zero = pos 0
negate (suc n) = negsuc n

-- away from zero on a half, as PostgreSQL and `ROUND_HALF_UP` do
unfoldable pub round_ratio : ℤ → ℕ → ℤ
unfolding round_half_up
round_ratio (pos n) m = pos (round_half_up n m)
round_ratio (negsuc n) m = negate (round_half_up (suc n) m)

unfoldable pub scale : ℕ → ℤ → ℤ
scale m (pos n) = pos (n * m)
scale m (negsuc n) = negate (suc n * m)

-- `d` is `numerator d / denominator d` cents
unfoldable pub numerator : Decimal → ℤ
unfolding scale
numerator d = scale (10 ^ (pos_part d.exponent + 2)) d.coefficient

unfoldable pub denominator : Decimal → ℕ
denominator d = 10 ^ neg_part d.exponent

-- What a `Numeric(18, 2)` column stores of a Decimal.
unfoldable pub to_cents : Decimal → ℤ
unfolding numerator denominator round_ratio
to_cents d = round_ratio (numerator d) (denominator d)

-- Python's default context has 28 digits.
abbrev pub context_limit : ℕ
context_limit = 10 ^ 28

-- The power of ten that the digits of `n` past the 28th leave out. A division by ten is one unit of
-- fuel; `n` has no more digits than its own value.
unfoldable pub digit_place : ℕ → ℕ → ℕ
digit_place zero n = 1
digit_place (suc fuel) n = elim (ltb n context_limit) [
  | true ↦ 1
  | false ↦ 10 * digit_place fuel (n / 10)
]

-- whether `q` is rounded up, where `r / m` is left of it: a half goes to the even neighbour
abbrev pub rounds_up : ℕ → ℕ → ℕ → Bool
rounds_up q r m = ltb m (2 * r) || ((2 * r == m) && (q % 2 == 1))

unfoldable pub half_even : ℕ → ℕ → ℕ
half_even n m = if rounds_up (n / m) (n % m) m then (n / m + 1) * m else n / m * m

-- a coefficient as the context rounds it (`ROUND_HALF_EVEN`)
unfoldable pub in_context : ℤ → ℤ
in_context (pos n) = pos (half_even n (digit_place n n))
in_context (negsuc n) = negate (half_even (suc n) (digit_place (suc n) (suc n)))

-- What the column stores of `balance + d`, for a balance in whole cents: the sum is rounded to the
-- digits of the context, then by the column. A sum too large for the context's exponents, which
-- raises in Python, is far too large for the column, too.
unfoldable pub add_to_cents : ℤ → Decimal → ℤ
unfolding numerator denominator round_ratio scale
add_to_cents balance d =
    round_ratio (in_context (scale (denominator d) balance +ℤ numerator d)) (denominator d)

-- 18 digits at most, the cents included; past that PostgreSQL refuses the value.
abbrev pub numeric_limit : ℕ
numeric_limit = 10 ^ 18

unfoldable pub fits_numeric : ℤ → Bool
fits_numeric a = ltb (pos_part a + neg_part a) numeric_limit
