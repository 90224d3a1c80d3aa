-- ===== src/Money/Context.antt =====
-- The rounding of sums by Python's decimal context.
use native.Mathlib.Nat.{mul-le-mul_right, le-div_iff_mul-le, div-lt_iff_lt-mul, div-div-eq-div-mul}
use nexobank_backend.Base.{
  ℕ, zero, suc, ◌*◌, ◌/◌, ◌%◌, ◌^◌, ◌<◌, ◌≤◌, ◌≡◌, refl, sym, true, false, ltb, arith, Bool-cases,
  inl, inr,
}
use nexobank_backend.Money.{context_limit, digit_place, half_even, rounds_up}

digit_place-small : (fuel n : ℕ) → ltb n context_limit ≡ true → digit_place fuel n ≡ 1
unfolding digit_place
digit_place-small zero n h = refl
digit_place-small (suc fuel) n h = ground (arith, h)

digit_place-large :
    (fuel n : ℕ)
    → ltb n context_limit ≡ false
    → digit_place (suc fuel) n ≡ 10 * digit_place fuel (n / 10)
unfolding digit_place
digit_place-large fuel n h = ground (arith, h)

digit_place-pos : (fuel n : ℕ) → 0 < digit_place fuel n
unfolding digit_place
digit_place-pos zero n = omega arith
digit_place-pos (suc fuel) n = elim (Bool-cases (ltb n context_limit)) [
  | inl small ↦ ground (arith, small)
  | inr large ↦ ground (arith, large, digit_place-pos fuel (n / 10))
]

-- The digits that are kept are at least 28 …
digit_place-keeps : (fuel n : ℕ) → 10 ^ 27 ≤ n → digit_place fuel n * 10 ^ 27 ≤ n
unfolding digit_place
digit_place-keeps zero n h = omega arith
digit_place-keeps (suc fuel) n h = elim (Bool-cases (ltb n context_limit)) [
  | inl small ↦ rw (digit_place-small (suc fuel) n small) (omega arith)
  | inr large ↦
      let tenth : 10 ^ 27 ≤ n / 10 = ground (arith, large) in
      let rest = digit_place-keeps fuel (n / 10) tenth in
      rw (digit_place-large fuel n large) (omega arith)
]

-- … and at most 28, with fuel for the others.
pub digit_place-enough :
    (fuel n : ℕ) → n < context_limit * 10 ^ fuel → n / digit_place fuel n < context_limit
digit_place-enough zero n h = rw (digit_place-small zero n (ground arith)) (omega arith)
digit_place-enough (suc fuel) n h = elim (Bool-cases (ltb n context_limit)) [
  | inl small ↦ rw (digit_place-small (suc fuel) n small) (ground (arith, small))
  | inr large ↦
      let fewer : n / 10 < context_limit * 10 ^ fuel =
        (div-lt_iff_lt-mul (omega arith)).1 (grind arith) in
      rw (digit_place-large fuel n large, sym (div-div-eq-div-mul n 10 (digit_place fuel (n / 10))))
        (digit_place-enough fuel (n / 10) fewer)
]

half_even-exact : (n : ℕ) → half_even n 1 ≡ n
unfolding half_even
half_even-exact n = ground arith

half_even-floor : (n m : ℕ) → n / m * m ≤ half_even n m
unfolding half_even
half_even-floor n m = elim (Bool-cases (rounds_up (n / m) (n % m) m)) [
  | inl up ↦ rw up (grind arith)
  | inr down ↦ rw down (omega arith)
]

-- A coefficient of at most 28 digits is kept.
pub in_context-small : (n : ℕ) → n < context_limit → half_even n (digit_place n n) ≡ n
in_context-small n h = rw (digit_place-small n n (ground arith)) (half_even-exact n)

-- A longer one is not rounded below the limit.
pub in_context-large : (n : ℕ) → context_limit ≤ n → context_limit ≤ half_even n (digit_place n n)
in_context-large zero h = absurd (omega arith)
in_context-large (suc n) h =
    let large : ltb (suc n) context_limit ≡ false = ground arith in
    let tens : 10 ≤ digit_place (suc n) (suc n) =
      rw (digit_place-large n (suc n) large) (ground (arith, digit_place-pos n (suc n / 10))) in
    let kept : 10 ^ 27 ≤ suc n / digit_place (suc n) (suc n) =
      (le-div_iff_mul-le (digit_place-pos (suc n) (suc n))).1
        (ground (arith, digit_place-keeps (suc n) (suc n) (omega arith))) in
    product (suc n / digit_place (suc n) (suc n)) (digit_place (suc n) (suc n)) kept tens
      (half_even-floor (suc n) (digit_place (suc n) (suc n)))
  where
    product : (q p : ℕ) {h : ℕ} → 10 ^ 27 ≤ q → 10 ≤ p → q * p ≤ h → context_limit ≤ h
    product q p kept tens below = let scaled = mul-le-mul_right p kept in omega arith
