-- ===== src/Calendar.antt =====
-- libc/src/time/mktime.c: the seconds since 1970. Years and the fields of a date are not negative
-- here; the arithmetic is that of unsigned 32-bit numbers, to which the year's part turns the rest.
mod Laws
mod Tests
use scales_os.Prelude.{
  ℕ, zero, suc, ◌+◌, ◌-◌, ◌*◌, ◌%◌, Bool, true, false, not, ◌&&◌, ◌||◌, add32, sub32, mul32, ◌==◌,
  if◌then◌else◌,
}

-- `struct tm`, the fields that are read.
pub record Tm : Type 0 where
  pub tm_sec : ℕ
  pub tm_min : ℕ
  pub tm_hour : ℕ
  pub tm_mday : ℕ
  pub tm_mon : ℕ
  pub tm_year : ℕ

pub year_is_leap : ℕ → Bool
year_is_leap year = year % 4 == 0 && (not (year % 100 == 0) || year % 400 == 0)

pub days_in_month : (month year : ℕ) → ℕ
days_in_month month year =
    if month == 12
    then 31
    else if month == 11
    then 30
    else if month == 10
    then 31
    else if month == 9
    then 30
    else if month == 8
    then 31
    else if month == 7
    then 31
    else if month == 6
    then 30
    else if month == 5
    then 31
    else if month == 4
    then 30
    else if month == 3
    then 31
    else if month == 2
    then if year_is_leap year then 29 else 28
    else if month == 1
    then 31
    else 0

-- The days that the loop of `secs_of_years` adds from the year 1969 + `left` down.
pub days_of_years : (left : ℕ) → ℕ
days_of_years zero = 0
days_of_years (suc left) =
    add32 (if year_is_leap (1969 + suc left) then 366 else 365) (days_of_years left)

-- `secs_of_years`, whose loop stops at 1969.
pub secs_of_years : ℕ → ℕ
secs_of_years years = mul32 (days_of_years (years - 1969)) 86400

-- The days of the months `i` and on, `left` of them.
pub days_of_months : (i left year : ℕ) → ℕ
days_of_months i zero year = 0
days_of_months i (suc left) year = days_in_month i year + days_of_months (i + 1) left year

-- `secs_of_month`
pub secs_of_month : (months year : ℕ) → ℕ
secs_of_month months year = days_of_months 1 (months - 1) year * 86400

-- `mktime`; the sign behind the `*` is a unary plus.
pub mktime : Tm → ℕ
mktime tm =
    add32
      (add32
        (add32
          (add32
            (mul32 (secs_of_years (add32 tm.tm_year 1899))
              (secs_of_month (add32 tm.tm_mon 1) (add32 tm.tm_year 1900)))
            (mul32 (sub32 tm.tm_mday 1) 86400))
          (mul32 tm.tm_hour 3600))
        (mul32 tm.tm_min 60))
      tm.tm_sec
