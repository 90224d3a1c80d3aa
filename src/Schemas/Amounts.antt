-- ===== src/Schemas/Amounts.antt =====
-- The amounts that the schema of a transfer lets through.
use mathlib.Core.Path.{ap}
use nexobank_backend.Base.{
  ◌≤◌, ℕ, zero, suc, ◌+◌, ◌*◌, ◌^◌, ℤ, pos, negsuc, pos_part, neg_part, ◌≤ℤ◌, ◌≡◌, refl, arith,
  false,
}
use nexobank_backend.Money.{Decimal, scale, numerator, denominator}
use nexobank_backend.Session.{Session, ok}
use nexobank_backend.Schemas.{validate_amount, quantized, has_thousandths}

pow_positive : (n : ℕ) → 1 ≤ 10 ^ n
pow_positive zero = omega arith
pow_positive (suc n) = grind (arith, pow_positive n)

times_positive : (m n : ℕ) → 1 ≤ m → 1 ≤ n → 1 ≤ m * n
times_positive zero n h k = absurd (omega arith)
times_positive (suc m) zero h k = absurd (omega arith)
times_positive (suc m) (suc n) h k = grind arith

-- `quantize` on what the checks let through is multiplication
quantized_exact :
    (c e : ℤ)
    → pos 1 ≤ℤ c
    → has_thousandths e ≡ false
    → (pos 1 ≤ℤ quantized c e)
      × (scale (10 ^ neg_part e) (quantized c e) ≡ scale (10 ^ (pos_part e + 2)) c)
unfolding quantized scale
quantized_exact (negsuc m) e p h = absurd (ground arith)
quantized_exact (pos m) (pos n) p h =
    (ground (arith, times_positive m (10 ^ (n + 2)), pow_positive (n + 2)), ap pos (omega arith))
quantized_exact (pos m) (negsuc zero) p h = (ground arith, ap pos (omega arith))
quantized_exact (pos m) (negsuc (suc zero)) p h = (ground arith, refl)
quantized_exact (pos m) (negsuc (suc (suc n))) p h = absurd (ground arith)

-- An amount that the schema lets through is stored as it was sent: it is a positive whole number of
-- cents, and the cents are the Decimal itself, without rounding.
pub validate_amount_exact :
    (v : Decimal) (s : Session) {cents : ℤ} {t : Session}
    → validate_amount v s ≡ (ok cents, t)
    → (pos 1 ≤ℤ cents) × (scale (denominator v) cents ≡ numerator v) × (t ≡ s)
unfolding validate_amount scale numerator denominator
validate_amount_exact v s h =
    let (positive, same) = quantized_exact v.coefficient v.exponent (ground arith) (ground arith) in
    (ground (arith, positive), ground (arith, same), ground arith)
