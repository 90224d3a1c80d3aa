-- ===== src/Money/Rounding.antt =====
-- Rounding to cents commutes with adding to a balance of whole cents.
use native.Mathlib.Nat.{mul-add-div_right, one-le-pow, pow-le-pow_right, le-div_iff_mul-le}
use nexobank_backend.Money.{
  Decimal, round_half_up, to_cents, add_to_cents, denominator, numerator, scale, round_ratio,
  context_limit, digit_place, half_even, in_context, fits_numeric,
}
use nexobank_backend.Money.Context.{in_context-small, in_context-large}
use mathlib.Core.Path.{ap, subst, ◌∙◌}
use nexobank_backend.Base.{
  ℕ, ◌+◌, ◌*◌, ◌<◌, ◌^◌, ◌≡◌, refl, ℤ, pos, negsuc, pos_part, neg_part, ◌+ℤ◌, ◌≤ℤ◌, arith, ◌≤◌, ltb,
  true, false, Bool-cases, inl, inr,
}

round_half_up-add : (b n m : ℕ) → 0 < m → round_half_up (b * m + n) m ≡ b + round_half_up n m
unfolding round_half_up
round_half_up-add b n m h =
    let e : 2 * (b * m + n) + m ≡ b * (2 * m) + (2 * n + m) = grind arith in
    rw e (mul-add-div_right (omega arith) b (2 * n + m))

denominator-pos : (d : Decimal) → 0 < denominator d
unfolding denominator
denominator-pos d = one-le-pow (neg_part d.exponent) 10 (omega arith)

scale_nonneg : (m : ℕ) (a : ℤ) → pos 0 ≤ℤ a → (n : ℕ) × (scale m a ≡ pos n)
unfolding scale
scale_nonneg m (pos n) h = (n * m, refl)
scale_nonneg m (negsuc n) h = absurd (omega arith)

numerator_nonneg : (d : Decimal) → pos 0 ≤ℤ d.coefficient → pos 0 ≤ℤ numerator d
unfolding numerator
numerator_nonneg d h = ground (arith, scale_nonneg (10 ^ (pos_part d.exponent + 2)) d.coefficient h)

-- A Decimal of at most ten decimal places. The sum of one and a balance needs no more than 28 digits,
-- or is too large for the column.
abbrev pub IsShort : Decimal → Type 0
IsShort d = neg_part d.exponent ≤ 10

denominator-short : (d : Decimal) → IsShort d → denominator d ≤ 10 ^ 10
unfolding denominator
denominator-short d h = pow-le-pow_right (omega arith) h

-- What the context has rounded is too large for the column.
round_half_up-large : (n m : ℕ) → 0 < m → m ≤ 10 ^ 10 → 10 ^ 28 ≤ n → 10 ^ 18 ≤ round_half_up n m
unfolding round_half_up
round_half_up-large n m p short large =
    (le-div_iff_mul-le {k = 2 * m} {x = 10 ^ 18} (omega arith)).1 (omega arith)

fits-large : (n : ℕ) → 10 ^ 18 ≤ n → fits_numeric (pos n) ≡ false
unfolding fits_numeric
fits-large n h = ground arith

-- the sum in the units of the denominator
add_coefficients :
    (b m n : ℕ)
    → 0 < m
    → m ≤ 10 ^ 10
    → fits_numeric (round_ratio (in_context (pos (b * m + n))) m) ≡ true
    → round_ratio (in_context (pos (b * m + n))) m ≡ pos (b + round_half_up n m)
unfolding round_ratio in_context
add_coefficients b m n p short fits = elim (Bool-cases (ltb (b * m + n) context_limit)) [
  | inl small ↦
      rw (in_context-small (b * m + n) (ground (arith, small))) (ap pos (round_half_up-add b n m p))
  | inr large ↦
      let rounded = half_even (b * m + n) (digit_place (b * m + n) (b * m + n)) in
      absurd (
        ground (
          arith,
          fits,
          fits-large (round_half_up rounded m) (
              round_half_up-large rounded m p short
                (in_context-large (b * m + n) (ground (arith, large)))),
        ))
]

add_numerators :
    (b m : ℕ) (a : ℤ)
    → 0 < m
    → m ≤ 10 ^ 10
    → pos 0 ≤ℤ a
    → fits_numeric (round_ratio (in_context (scale m (pos b) +ℤ a)) m) ≡ true
    → round_ratio (in_context (scale m (pos b) +ℤ a)) m ≡ pos b +ℤ round_ratio a m
unfolding scale ◌+ℤ◌ round_ratio
add_numerators b m (pos n) p short h fits =
    subst
      (λ x.
        fits_numeric (round_ratio (in_context x) m) ≡ true
        → round_ratio (in_context x) m ≡ pos b +ℤ pos (round_half_up n m))
      (ground arith) (λ f. add_coefficients b m n p short f ∙ ground arith) fits
add_numerators b m (negsuc n) p short h fits = absurd (omega arith)

-- Adding a non-negative Decimal of at most ten decimal places to a balance of whole cents and storing
-- the sum, where it fits, stores the balance plus what the column of an amount stores of the Decimal.
pub add_to_cents-add :
    (b : ℕ) (d : Decimal)
    → pos 0 ≤ℤ d.coefficient
    → IsShort d
    → fits_numeric (add_to_cents (pos b) d) ≡ true
    → add_to_cents (pos b) d ≡ pos b +ℤ to_cents d
unfolding add_to_cents to_cents
add_to_cents-add b d h short fits =
    add_numerators b (denominator d) (numerator d) (denominator-pos d) (denominator-short d short)
      (numerator_nonneg d h) fits

round_ratio_nonneg : (a : ℤ) (m : ℕ) → pos 0 ≤ℤ a → pos 0 ≤ℤ round_ratio a m
unfolding round_ratio
round_ratio_nonneg (pos n) m h = omega arith
round_ratio_nonneg (negsuc n) m h = absurd (omega arith)

pub to_cents_nonneg : (d : Decimal) → pos 0 ≤ℤ d.coefficient → pos 0 ≤ℤ to_cents d
unfolding to_cents
to_cents_nonneg d h = round_ratio_nonneg (numerator d) (denominator d) (numerator_nonneg d h)

-- 0.005 is stored as one cent, 0.004 as nothing, 12.30 as 1230 cents.
to_cents_test :
    (to_cents (record { coefficient = pos 5; exponent = negsuc 2 }) ≡ pos 1)
    × (to_cents (record { coefficient = pos 4; exponent = negsuc 2 }) ≡ pos 0)
    × (to_cents (record { coefficient = pos 1230; exponent = negsuc 1 }) ≡ pos 1230)
    × (to_cents (record { coefficient = negsuc 4; exponent = negsuc 2 }) ≡ negsuc 0)
    × (to_cents (record { coefficient = pos 7; exponent = pos 3 }) ≡ pos 700000)
unfolding to_cents
to_cents_test = (refl, refl, refl, refl, refl)

-- 0.005 less a trifle, on 100.00: the column stores nothing for the amount, the sum is rounded twice.
add_to_cents_test :
    (to_cents (record { coefficient = pos 499999999999999999999999999999; exponent = negsuc 31 })
      ≡ pos 0)
    × (add_to_cents
          (pos 10000)
          (record { coefficient = pos 499999999999999999999999999999; exponent = negsuc 31 })
        ≡ pos 10001)
unfolding add_to_cents to_cents in_context ◌+ℤ◌ half_even digit_place
add_to_cents_test = (refl, refl)
