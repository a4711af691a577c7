-- ===== src/Cli/Dates/Era.antt =====
-- The dates within an era of 400 years follow the Gregorian calendar.
use tersa_app.Prelude.{
  ℕ, ◌+◌, ◌-◌, ◌*◌, ◌/◌, ◌%◌, ◌≤◌, ◌<◌, ◌≡◌, Bool, not, ◌&&◌, ◌||◌, ltb, leb, if◌then◌else◌, arith,
  Bool-cases, inl, inr, ap, sym, ◌∙◌, subst,
}
use tersa_app.Prelude.Tests.{◌==◌}
use tersa_app.Cli.Dates.{year_of_era, day_of_year, month_index, month_start, month_of}

-- the days before the year `y` of an era
abbrev start : ℕ → ℕ
start y = 365 * y + y / 4 - y / 100 + y / 400

era-bounds :
    (d : ℕ)
    → d < 146097
    → (start (year_of_era d) ≤ d) × (d < start (year_of_era d + 1)) × (year_of_era d < 400)
unfolding year_of_era
era-bounds d h = (omega arith, omega arith, omega arith)

start_mono : (y z : ℕ) → y < z → start (y + 1) ≤ start z
start_mono y z h = omega arith

year_unique :
    (d y z : ℕ) → start y ≤ d → d < start (y + 1) → start z ≤ d → d < start (z + 1) → y ≡ z
year_unique d y z a b c e = elim (Bool-cases (ltb y z)) [
  | inl under ↦ absurd (omega (arith, a, b, c, e, start_mono y z (ground arith)))
  | inr above ↦ elim (Bool-cases (ltb z y)) [
    | inl over ↦ absurd (omega (arith, a, b, c, e, start_mono z y (ground arith)))
    | inr same ↦ ground arith
  ]
]

month-bounds :
    (doy : ℕ)
    → doy < 366
    → (month_start (month_index doy) ≤ doy)
      × (doy < month_start (month_index doy + 1))
      × (month_index doy < 12)
unfolding month_index month_start
month-bounds doy h = (omega arith, omega arith, omega arith)

month_unique :
    (d y z : ℕ)
    → month_start y ≤ d
    → d < month_start (y + 1)
    → month_start z ≤ d
    → d < month_start (z + 1)
    → y ≡ z
unfolding month_start
month_unique d y z a b c e = omega arith

-- a leap year of the Gregorian calendar
abbrev pub is_leap : ℕ → Bool
is_leap y = y % 4 == 0 && (not (y % 100 == 0) || y % 400 == 0)

abbrev pub leap_day : ℕ → ℕ
leap_day y = if is_leap y then 1 else 0

start-suc : (y : ℕ) → start (y + 1) ≡ start y + 365 + leap_day (y + 1)
start-suc y = ground arith

abbrev pub days_in_month : ℕ → ℕ → ℕ
days_in_month y m =
    if m == 2 then 28 + leap_day y else if m == 4 || m == 6 || m == 9 || m == 11 then 30 else 31

-- the year of a month of a March year
abbrev pub year_of : ℕ → ℕ → ℕ
year_of y index = y + (if leb (month_of index) 2 then 1 else 0)

month_start-suc :
    (k i : ℕ) → i < 11 → month_start (i + 1) ≡ month_start i + days_in_month k (month_of i)
unfolding month_start
month_start-suc k i h = ground arith

module _ (d : ℕ) (h : d + 1 < 146097) where
  same_year : d + 1 < start (year_of_era d + 1) → year_of_era (d + 1) ≡ year_of_era d
  same_year k =
      let b = era-bounds d (omega (arith, h)) in
      let c = era-bounds (d + 1) h in
      year_unique (d + 1) (year_of_era (d + 1)) (year_of_era d) c.0 c.1 (omega (arith, b.0)) k

  new_year : start (year_of_era d + 1) ≤ d + 1 → year_of_era (d + 1) ≡ year_of_era d + 1
  new_year k =
      let b = era-bounds d (omega (arith, h)) in
      let c = era-bounds (d + 1) h in
      year_unique (d + 1) (year_of_era (d + 1)) (year_of_era d + 1) c.0 c.1 k
        (omega (arith, b.1, start-suc (year_of_era d + 1)))

next_start : (e i : ℕ) → e < month_start (i + 1) → e + 1 < month_start (i + 1 + 1)
unfolding month_start
next_start e i k = omega (arith, k)

module _ (e : ℕ) (h : e + 1 < 366) where
  same_month : e + 1 < month_start (month_index e + 1) → month_index (e + 1) ≡ month_index e
  same_month k =
      let b = month-bounds e (omega (arith, h)) in
      let c = month-bounds (e + 1) h in
      month_unique (e + 1) (month_index (e + 1)) (month_index e) c.0 c.1 (omega (arith, b.0)) k

  new_month : month_start (month_index e + 1) ≤ e + 1 → month_index (e + 1) ≡ month_index e + 1
  new_month k =
      let b = month-bounds e (omega (arith, h)) in
      let c = month-bounds (e + 1) h in
      month_unique (e + 1) (month_index (e + 1)) (month_index e + 1) c.0 c.1 k
        (next_start e (month_index e) b.1)

-- the date of a day of an era: the year from its start, the month and the day
abbrev pub era_date : ℕ → ℕ × ℕ × ℕ
era_date d =
    let y = year_of_era d in
    let e = day_of_year d y in
    let i = month_index e in (year_of y i, month_of i, e - month_start i + 1)

abbrev pub next_date : ℕ × ℕ × ℕ → ℕ × ℕ × ℕ
next_date (y, m, d) =
    if ltb d (days_in_month y m)
    then (y, m, d + 1)
    else if ltb m 12
    then (y, m + 1, 1)
    else (y + 1, 1, 1)

-- the date of the day `e` of the March year `y`
abbrev march_date : ℕ → ℕ → ℕ × ℕ × ℕ
march_date y e =
    (year_of y (month_index e), month_of (month_index e), e - month_start (month_index e) + 1)

in_month :
    (y i e : ℕ)
    → i < 12
    → month_start i ≤ e
    → e + 1 < month_start (i + 1)
    → e + 1 < 365 + leap_day (y + 1)
    → next_date (year_of y i, month_of i, e - month_start i + 1)
      ≡ (year_of y i, month_of i, e + 1 - month_start i + 1)
unfolding month_start
in_month y i e a b c l = ground arith

month_end :
    (y i e : ℕ)
    → i < 11
    → month_start i ≤ e
    → e + 1 ≡ month_start (i + 1)
    → next_date (year_of y i, month_of i, e - month_start i + 1)
      ≡ (year_of y (i + 1), month_of (i + 1), 1)
unfolding month_start
month_end y i e a b c = ground arith

year_end :
    (y i e : ℕ)
    → e + 1 ≡ 365 + leap_day (y + 1)
    → i ≡ 11
    → next_date (year_of y i, month_of i, e - month_start i + 1) ≡ (y + 1, 3, 1)
unfolding month_start
year_end y i e a b = ground arith

early : (e i : ℕ) → e + 1 ≡ month_start (i + 1) → e + 1 < 366 → i < 12 → i < 11
unfolding month_start
early e i full short b = omega (arith, full, short, b)

first_day : (a b : ℕ) → a ≡ b → 1 ≡ a - b + 1
first_day a b k = omega (arith, k)

last_month : (e l : ℕ) → l ≤ 1 → e + 1 ≡ 365 + l → month_index e ≡ 11
unfolding month_index
last_month e l a h = omega (arith, a, h)

leap_day_le : (y : ℕ) → leap_day y ≤ 1
leap_day_le y = ground arith

march_next :
    (y e : ℕ) → e + 1 < 365 + leap_day (y + 1) → next_date (march_date y e) ≡ march_date y (e + 1)
march_next y e h =
    let i = month_index e in
    let short : e + 1 < 366 = ground arith in
    let b = month-bounds e (omega (arith, short)) in
    elim (Bool-cases (ltb (e + 1) (month_start (i + 1)))) [
      | inl within ↦
          in_month y i e b.2 b.0 (ground arith) h
          ∙ ap (λ j. (year_of y j, month_of j, e + 1 - month_start j + 1))
              (sym (same_month e short (ground arith)))
      | inr after ↦
          let full : e + 1 ≡ month_start (i + 1) = ground (arith, b.1) in
          month_end y i e (early e i full short b.2) b.0 full
          ∙ ap (λ n. (year_of y (i + 1), month_of (i + 1), n))
              (first_day (e + 1) (month_start (i + 1)) full)
          ∙ ap (λ j. (year_of y j, month_of j, e + 1 - month_start j + 1))
              (sym (new_month e short (ground arith)))
    ]

march_end :
    (y e : ℕ) → e + 1 ≡ 365 + leap_day (y + 1) → next_date (march_date y e) ≡ march_date (y + 1) 0
unfolding month_index month_start
march_end y e h =
    let same : y + 1 ≡ y + 1 + 0 = omega arith in
    year_end y (month_index e) e h (last_month e (leap_day (y + 1)) (leap_day_le (y + 1)) h)
    ∙ ap (λ k. (k, 3, 1)) same

-- the days of a March year, from the start of the year
day-start : (d y : ℕ) → y < 400 → day_of_year d y ≡ d - start y
unfolding day_of_year
day-start d y h = omega (arith, h)

next_offset : (e d a f : ℕ) → e ≡ d - a → a ≤ d → f ≡ d + 1 - a → e + 1 ≡ f
next_offset e d a f h k g = omega (arith, h, k, g)

short_year : (e d a z l : ℕ) → e ≡ d - a → a ≤ d → z ≡ a + 365 + l → d + 1 < z → e + 1 < 365 + l
short_year e d a z l h k g f = omega (arith, h, k, g, f)

whole_year : (e d a z l : ℕ) → e ≡ d - a → a ≤ d → z ≡ a + 365 + l → d + 1 ≡ z → e + 1 ≡ 365 + l
whole_year e d a z l h k g f = omega (arith, h, k, g, f)

no_offset : (a b : ℕ) → a ≡ b → a - b ≡ 0
no_offset a b h = omega (arith, h)

-- Within an era, the date of the next day is the next date of the Gregorian calendar.
pub era_next : (d : ℕ) → d + 1 < 146097 → next_date (era_date d) ≡ era_date (d + 1)
era_next d h =
    let y = year_of_era d in
    let e = day_of_year d y in
    let b = era-bounds d (omega (arith, h)) in
    let c = era-bounds (d + 1) h in
    let here : e ≡ d - start y = day-start d y b.2 in
    let long : start (y + 1) ≡ start y + 365 + leap_day (y + 1) = start-suc y in
    elim (Bool-cases (ltb (d + 1) (start (y + 1)))) [
      | inl within ↦
          let year = same_year d h (ground arith) in
          let day : e + 1 ≡ day_of_year (d + 1) y =
            next_offset e d (start y) (day_of_year (d + 1) y) here b.0 (day-start (d + 1) y b.2) in
          march_next y e (
            short_year e d (start y) (start (y + 1)) (leap_day (y + 1)) here b.0 long
              (ground arith))
          ∙ ap (march_date y) day
          ∙ ap (λ z. march_date z (day_of_year (d + 1) z)) (sym year)
      | inr after ↦
          let year = new_year d h (ground arith) in
          let full : d + 1 ≡ start (y + 1) = ground (arith, b.1) in
          let day : 0 ≡ day_of_year (d + 1) (y + 1) = sym (
            day-start (d + 1) (y + 1) (subst (λ z. z < 400) year c.2)
            ∙ no_offset (d + 1) (start (y + 1)) full) in
          march_end y e
            (whole_year e d (start y) (start (y + 1)) (leap_day (y + 1)) here b.0 long full)
          ∙ ap (march_date (y + 1)) day
          ∙ ap (λ z. march_date z (day_of_year (d + 1) z)) (sym year)
    ]
