-- ===== src/Cli/Dates.antt =====
-- apps/tersa/src/dates.rs: the UTC date and time of a timestamp. An `i64` is a sign and a number.
pub mod Era
pub mod Calendar
use tersa_app.Prelude.{ℕ, ◌+◌, ◌-◌, ◌*◌, ◌/◌, ◌%◌, ltb, leb, if◌then◌else◌}
use tersa_app.Prelude.Int.{ℤ, pos, negsuc, div_euclid, rem_euclid, add_ℕ, mul_ℕ}

unfoldable pub year_of_era : ℕ → ℕ
year_of_era day_of_era =
    (day_of_era - day_of_era / 1460 + day_of_era / 36524 - day_of_era / 146096) / 365

unfoldable pub day_of_year : ℕ → ℕ → ℕ
day_of_year day_of_era year = day_of_era - (365 * year + year / 4 - year / 100)

unfoldable pub month_index : ℕ → ℕ
month_index doy = (5 * doy + 2) / 153

unfoldable pub month_start : ℕ → ℕ
month_start index = (153 * index + 2) / 5

abbrev month_of : ℕ → ℕ
month_of index = if ltb index 10 then index + 3 else index - 9

unfoldable pub civil_from_days : ℤ → ℤ × ℕ × ℕ
unfolding year_of_era day_of_year month_index month_start
civil_from_days days =
    let shifted = add_ℕ days 719468 in
    let era = div_euclid shifted 146097 in
    let day_of_era = rem_euclid shifted 146097 in
    let year = year_of_era day_of_era in
    let doy = day_of_year day_of_era year in
    let index = month_index doy in
    let day = doy - month_start index + 1 in
    let month = month_of index in
    (add_ℕ (mul_ℕ era 400) (year + (if leb month 2 then 1 else 0)), month, day)

-- the numbers that `format_utc` prints: the date, the hour and the minute
unfoldable pub utc_fields : ℤ → (ℤ × ℕ × ℕ) × ℕ × ℕ
unfolding civil_from_days
utc_fields millis =
    let seconds = div_euclid millis 1000 in
    let days = div_euclid seconds 86400 in
    let second_of_day = rem_euclid seconds 86400 in
    (civil_from_days days, second_of_day / 3600, second_of_day % 3600 / 60)
