-- ===== src/Calendar/Tests.antt =====
-- Dates through the model of libc/src/time/mktime.c.
use scales_os.Prelude.{◌+◌, ◌*◌, ◌≡◌, refl}
use scales_os.Calendar.{Tm, mktime, secs_of_years, secs_of_month, days_of_years, days_of_months}

-- The 5th of January 2024, one hour past midnight.
abbrev new_year : Tm
new_year = record { tm_sec = 0; tm_min = 0; tm_hour = 1; tm_mday = 5; tm_mon = 0; tm_year = 124 }

-- Five days into 1970, whatever the year.
five_days : mktime (record new_year { tm_year = 70 }) ≡ 4 * 86400 + 3600
unfolding mktime secs_of_years secs_of_month days_of_years days_of_months
five_days = refl
