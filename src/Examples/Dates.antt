-- ===== src/Examples/Dates.antt =====
-- The theorem on dates at a concrete input.
use tersa_app.Prelude.{◌≡◌, refl}
use tersa_app.Prelude.Int.{ℤ, pos, negsuc, add_ℕ}
use tersa_app.Cli.Dates.{civil_from_days, utc_fields}
use tersa_app.Cli.Dates.Calendar.{next_date, civil_from_days_lem}

-- 28 February 1600 is followed by a leap day
abbrev day : ℤ
day = negsuc 135081

leap_day_1600 : civil_from_days (add_ℕ day 1) ≡ (pos 1600, 2, 29)
unfolding civil_from_days
leap_day_1600 = refl

-- 31 December 1969, 23:59
before_epoch : utc_fields (negsuc 0) ≡ ((pos 1969, 12, 31), 23, 59)
unfolding utc_fields
before_epoch = refl

civil_from_days_lem_example :
    (civil_from_days (add_ℕ day 1) ≡ next_date (civil_from_days day))
    × (civil_from_days (pos 0) ≡ (pos 1970, 1, 1))
civil_from_days_lem_example = civil_from_days_lem day
