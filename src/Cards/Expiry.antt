-- ===== src/Cards/Expiry.antt =====
-- `_compute_expiry`: the last day of the month, three years on.
use mathlib.Core.Path.{subst}
use nexobank_backend.Base.{ℕ, ◌+◌, ◌≤◌, ◌≡◌, refl, arith}
use nexobank_backend.Models.{Date}
use nexobank_backend.Cards.{days_in_month, compute_expiry}

-- A day of the calendar.
pub record IsDate (d : Date) : Type 0 where
  pub month_low : 1 ≤ d.month
  pub month_high : d.month ≤ 12
  pub day_low : 1 ≤ d.day
  pub day_high : d.day ≤ days_in_month d.year d.month

pub days_in_month_positive : (year month : ℕ) → 1 ≤ days_in_month year month
unfolding days_in_month
days_in_month_positive year month = ground (arith)

-- The expiry of a card that is issued on a day of the calendar is a day of the calendar, in the same
-- month three years later, and no day of that month comes after it.
pub compute_expiry-IsDate :
    (issued : Date)
    → IsDate issued
    → IsDate (compute_expiry issued)
      × ((compute_expiry issued).year ≡ issued.year + 3)
      × ((compute_expiry issued).month ≡ issued.month)
      × ((d : Date)
          → IsDate d
          → d.year ≡ issued.year + 3
          → d.month ≡ issued.month
          → d.day ≤ (compute_expiry issued).day)
unfolding compute_expiry
compute_expiry-IsDate issued v = (
  record {
    month_low = v.month_low;
    month_high = v.month_high;
    day_low = days_in_month_positive (issued.year + 3) issued.month;
    day_high = ground arith;
  },
  refl,
  refl,
  λ d is_date same_year same_month.
      subst (λ y. d.day ≤ days_in_month y issued.month) same_year
        (subst (λ m. d.day ≤ days_in_month d.year m) same_month is_date.day_high),
)

-- A card that is issued on 29 February 2024 expires on 28 February 2027.
leap_test :
    compute_expiry (record { year = 2024; month = 2; day = 29 })
    ≡ record { year = 2027; month = 2; day = 28 }
unfolding compute_expiry days_in_month
leap_test = refl
