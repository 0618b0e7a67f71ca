-- ===== src/Calendar.antt =====
-- What the budgets use of `datetime`, of a time in UTC from 1970 on, in microseconds.
use mission_control_platform.Prelude.{ℕ, ◌+◌, ◌-◌, ◌*◌, ◌/◌, ◌%◌}
use mission_control_platform.Rows.{Time}

abbrev pub day : Time
day = 86400000000

-- `now.replace(hour=0, minute=0, second=0, microsecond=0)`.
unfoldable pub midnight : Time → Time
midnight now = now - now % day

-- `weekday()`, from 0 on Monday; the first day of 1970 was a Thursday.
unfoldable pub weekday : Time → ℕ
weekday now = (now / day + 3) % 7

-- The day within its year of 400, from 1 March 0000, of a number of days since 1970.
unfoldable pub day_of_era : ℕ → ℕ
day_of_era days = (days + 719468) % 146097

-- The day within a year that begins on 1 March.
unfoldable pub day_of_year : ℕ → ℕ
day_of_year doe =
    let year = (doe - doe / 1460 + doe / 36524 - doe / 146096) / 365 in
    doe - (365 * year + year / 4 - year / 100)

-- `day`, from 1, in the Gregorian calendar.
unfoldable pub day_of_month : Time → ℕ
unfolding day_of_era day_of_year
day_of_month now =
    let doy = day_of_year (day_of_era (now / day)) in
    let month = (5 * doy + 2) / 153 in doy - (153 * month + 2) / 5 + 1
