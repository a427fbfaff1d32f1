-- ===== src/Calendar/Laws.antt =====
-- The months of libc/src/time/mktime.c add up to its years, and its January loses the year.
use scales_os.Prelude.{
  ℕ, zero, suc, ◌+◌, ◌*◌, ◌%◌, ◌^◌, ◌≤◌, ◌≡◌, refl, Bool-cases, inl, inr, arith, add32, mul32,
  if◌then◌else◌,
}
use scales_os.Calendar.{
  Tm, year_is_leap, days_in_month, days_of_years, secs_of_years, days_of_months, secs_of_month,
  mktime,
}

months_of_year : (year : ℕ) → days_of_months 1 12 year ≡ (if year_is_leap year then 366 else 365)
unfolding days_of_months days_in_month
months_of_year year = elim (Bool-cases (year_is_leap year)) [
  | inl leap ↦ rw leap refl
  | inr common ↦ rw common refl
]

days_of_years-le : (left : ℕ) → days_of_years left ≤ left * 366
unfolding days_of_years
days_of_years-le zero = omega arith
days_of_years-le (suc left) =
    let ih = days_of_years-le left in
    elim (Bool-cases (year_is_leap (1969 + suc left))) [
      | inl leap ↦ rw leap (omega (arith, ih))
      | inr common ↦ rw common (omega (arith, ih))
    ]

-- For every year up to 5000 after 1969, the days that `secs_of_years` counts for the year are those
-- of the twelve months of `secs_of_month`.
pub days_of_years-days_of_months :
    (left : ℕ)
    → left ≤ 5000
    → days_of_years (suc left) ≡ days_of_months 1 12 (1969 + suc left) + days_of_years left
unfolding days_of_years
days_of_years-days_of_months left le =
    let m = months_of_year (1969 + suc left) in
    let few = days_of_years-le left in
    let few' : days_of_years left ≤ 1830000 = omega (arith, few, le) in
    elim (Bool-cases (year_is_leap (1969 + suc left))) [
      | inl leap ↦ rw (m, leap) (omega (arith, few'))
      | inr common ↦ rw (m, common) (omega (arith, few'))
    ]

product-january :
    (y y' : ℕ) → mul32 (secs_of_years (y % 2 ^ 32)) (secs_of_month (add32 0 1) (y' % 2 ^ 32)) ≡ 0
unfolding secs_of_month days_of_months
product-january y y' = omega arith

-- In January the product of the year's seconds with those of the months before is 0, so that
-- `mktime` gives dates of any two years that differ in nothing but the year the same time.
pub mktime-january :
    (tm : Tm) (year : ℕ) → tm.tm_mon ≡ 0 → mktime tm ≡ mktime (record tm { tm_year = year })
unfolding mktime
mktime-january tm year january =
    rw (january, product-january (tm.tm_year + 1899) (tm.tm_year + 1900))
      (rw (product-january (year + 1899) (year + 1900)) refl)
