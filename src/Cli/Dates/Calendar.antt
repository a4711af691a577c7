-- ===== src/Cli/Dates/Calendar.antt =====
-- The dates of successive days are successive dates of the proleptic Gregorian calendar.
use tersa_app.Prelude.{
  ℕ, zero, suc, ◌+◌, ◌%◌, ◌<◌, ◌≡◌, Bool, true, false, not, ◌&&◌, ◌||◌, ltb, if◌then◌else◌, arith,
  Bool-cases, inl, inr, refl, ap, sym, ◌∙◌,
}
use tersa_app.Prelude.Tests.{◌==◌}
use tersa_app.Prelude.Int.{ℤ, pos, negsuc, div_euclid, rem_euclid, add_ℕ, mul_ℕ}
use tersa_app.Cli.Dates.{civil_from_days, year_of_era, day_of_year, month_index, month_start}
use tersa_app.Cli.Dates.Era
use tersa_app.Cli.Dates.Era.{era_date, era_next}

-- the years that are divisible by 4 and, if by 100, by 400
abbrev pub is_leap : ℤ → Bool
is_leap y = rem_euclid y 4 == 0 && (not (rem_euclid y 100 == 0) || rem_euclid y 400 == 0)

abbrev pub days_in_month : ℤ → ℕ → ℕ
days_in_month y m =
    if m == 2
    then 28 + (if is_leap y then 1 else 0)
    else if m == 4 || m == 6 || m == 9 || m == 11
    then 30
    else 31

-- the next date of the calendar
unfoldable pub next_date : ℤ × ℕ × ℕ → ℤ × ℕ × ℕ
next_date (y, m, d) =
    if ltb d (days_in_month y m)
    then (y, m, d + 1)
    else if ltb m 12
    then (y, m + 1, 1)
    else (add_ℕ y 1, 1, 1)

rem-four : (e : ℤ) (k : ℕ) → rem_euclid (add_ℕ (mul_ℕ e 400) k) 4 ≡ k % 4
rem-four (pos a) k = ground arith
rem-four (negsuc a) k = ground arith

rem-hundred : (e : ℤ) (k : ℕ) → rem_euclid (add_ℕ (mul_ℕ e 400) k) 100 ≡ k % 100
rem-hundred (pos a) k = ground arith
rem-hundred (negsuc a) k = ground arith

rem-four_hundred : (e : ℤ) (k : ℕ) → rem_euclid (add_ℕ (mul_ℕ e 400) k) 400 ≡ k % 400
rem-four_hundred (pos a) k = ground arith
rem-four_hundred (negsuc a) k = ground arith

add_ℕ-suc : (a : ℤ) (k : ℕ) → add_ℕ (add_ℕ a k) 1 ≡ add_ℕ a (k + 1)
add_ℕ-suc (pos a) k = ground arith
add_ℕ-suc (negsuc a) k = ground arith

next_era : (e : ℤ) → add_ℕ (mul_ℕ e 400) 400 ≡ add_ℕ (mul_ℕ (add_ℕ e 1) 400) 0
next_era (pos a) = ground arith
next_era (negsuc zero) = ground arith
next_era (negsuc (suc a)) = ground arith

euclid-next :
    (s : ℤ)
    → rem_euclid s 146097 < 146096
    → (div_euclid (add_ℕ s 1) 146097 ≡ div_euclid s 146097)
      × (rem_euclid (add_ℕ s 1) 146097 ≡ rem_euclid s 146097 + 1)
euclid-next (pos a) h = (ground arith, ground arith)
euclid-next (negsuc zero) h = (ground arith, ground arith)
euclid-next (negsuc (suc a)) h = (ground arith, ground arith)

euclid-wrap :
    (s : ℤ)
    → rem_euclid s 146097 ≡ 146096
    → (div_euclid (add_ℕ s 1) 146097 ≡ add_ℕ (div_euclid s 146097) 1)
      × (rem_euclid (add_ℕ s 1) 146097 ≡ 0)
euclid-wrap (pos a) h = (ground arith, ground arith)
euclid-wrap (negsuc zero) h = (ground arith, ground arith)
euclid-wrap (negsuc (suc a)) h = (ground arith, ground arith)

-- a date of an era, as a date
abbrev in_era : ℤ → ℕ × ℕ × ℕ → ℤ × ℕ × ℕ
in_era e (k, m, d) = (add_ℕ (mul_ℕ e 400) k, m, d)

leap-era : (e : ℤ) (k : ℕ) → is_leap (add_ℕ (mul_ℕ e 400) k) ≡ Era.is_leap k
leap-era e k = rw (rem-four e k) (rw (rem-hundred e k) (rw (rem-four_hundred e k) refl))

chosen :
    (e : ℤ) (k m d : ℕ) (b c : Bool)
    → (if b
        then in_era e (k, m, d + 1)
        else if c
        then in_era e (k, m + 1, 1)
        else (add_ℕ (add_ℕ (mul_ℕ e 400) k) 1, 1, 1))
      ≡ in_era e (if b then (k, m, d + 1) else if c then (k, m + 1, 1) else (k + 1, 1, 1))
chosen e k m d true c = refl
chosen e k m d false true = refl
chosen e k m d false false = ap (λ (y : ℤ). (y, 1, 1)) (add_ℕ-suc (mul_ℕ e 400) k)

next-era : (e : ℤ) (k m d : ℕ) → next_date (in_era e (k, m, d)) ≡ in_era e (Era.next_date (k, m, d))
unfolding next_date
next-era e k m d = rw (leap-era e k) (chosen e k m d (ltb d (Era.days_in_month k m)) (ltb m 12))

days-commute : (days : ℤ) → add_ℕ (add_ℕ days 1) 719468 ≡ add_ℕ (add_ℕ days 719468) 1
days-commute (pos a) = ground arith
days-commute (negsuc a) = ground arith

rem-lt : (s : ℤ) → rem_euclid s 146097 < 146097
rem-lt (pos a) = omega arith
rem-lt (negsuc a) = omega arith

-- the date of a day that is counted from the start of an era
abbrev shifted_date : ℤ → ℤ × ℕ × ℕ
shifted_date s = in_era (div_euclid s 146097) (era_date (rem_euclid s 146097))

shifted-next :
    (s : ℤ) → rem_euclid s 146097 < 146096 → shifted_date (add_ℕ s 1) ≡ next_date (shifted_date s)
shifted-next s h =
    let (same, later) = euclid-next s h in
    let e = div_euclid s 146097 in
    let d = era_date (rem_euclid s 146097) in
    ap (λ q. in_era q (era_date (rem_euclid (add_ℕ s 1) 146097))) same
    ∙ ap (λ r. in_era e (era_date r)) later
    ∙ ap (in_era e) (sym (era_next (rem_euclid s 146097) (omega (arith, h))))
    ∙ sym (next-era e d.0 d.1 d.2)

last_day : (e : ℤ) → in_era (add_ℕ e 1) (era_date 0) ≡ next_date (in_era e (era_date 146096))
unfolding year_of_era day_of_year month_index month_start
last_day e = ap (λ (y : ℤ). (y, 3, 1)) (sym (next_era e)) ∙ sym (next-era e 400 2 29)

shifted-wrap :
    (s : ℤ) → rem_euclid s 146097 ≡ 146096 → shifted_date (add_ℕ s 1) ≡ next_date (shifted_date s)
shifted-wrap s h =
    let (later, first) = euclid-wrap s h in
    let e = div_euclid s 146097 in
    ap (λ q. in_era q (era_date (rem_euclid (add_ℕ s 1) 146097))) later
    ∙ ap (λ r. in_era (add_ℕ e 1) (era_date r)) first
    ∙ last_day e
    ∙ ap (λ r. next_date (in_era e (era_date r))) (sym h)

shifted_date-next : (s : ℤ) → shifted_date (add_ℕ s 1) ≡ next_date (shifted_date s)
shifted_date-next s = elim (Bool-cases (ltb (rem_euclid s 146097) 146096)) [
  | inl within ↦ shifted-next s (ground arith)
  | inr end ↦ shifted-wrap s (ground (arith, rem-lt s))
]

-- The date of the next day is the next date of the proleptic Gregorian calendar, for every day before
-- or after the epoch, and day 0 is 1 January 1970: so the date of every day is right.
pub civil_from_days_lem :
    (days : ℤ)
    → (civil_from_days (add_ℕ days 1) ≡ next_date (civil_from_days days))
      × (civil_from_days (pos 0) ≡ (pos 1970, 1, 1))
unfolding civil_from_days
civil_from_days_lem days =
    (ap shifted_date (days-commute days) ∙ shifted_date-next (add_ℕ days 719468), refl)
