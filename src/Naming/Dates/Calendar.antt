-- ===== src/Naming/Dates/Calendar.antt =====
-- `civil_from_days` against the Gregorian calendar.
use sniff_css.Prelude.{
  ℕ, zero, suc, ◌+◌, ◌-◌, ◌*◌, ◌/◌, ◌%◌, ◌≤◌, ◌<◌, ◌≡◌, refl, ap, subst, sym, ◌∙◌, ◌⊎◌, inl, inr,
  arith, ◌==◌, ◌&&◌, ◌||◌, not, Bool, true, if◌then◌else◌,
}
use sniff_css.Naming.Dates.{Civil, year_of_era, day_of_year, civil_of, civil_from_days}

abbrev pub is_leap : ℕ → Bool
is_leap y = y % 4 == 0 && (not (y % 100 == 0) || y % 400 == 0)

abbrev pub days_in_month : ℕ → ℕ → ℕ
days_in_month y m =
    if m == 2
    then (if is_leap y then 29 else 28)
    else if m == 4 || (m == 6 || (m == 9 || m == 11))
    then 30
    else 31

abbrev pub days_before_month : ℕ → ℕ → ℕ
days_before_month y zero = 0
days_before_month y (suc zero) = 0
days_before_month y (suc (suc m)) = days_before_month y (suc m) + days_in_month y (suc m)

abbrev days_in_year : ℕ → ℕ
days_in_year y = if is_leap y then 366 else 365

-- the days of the years before `y`, from year 0
abbrev pub days_before_year : ℕ → ℕ
days_before_year zero = 0
days_before_year (suc y) = days_before_year y + days_in_year y

days_before_year-formula :
    (y : ℕ) → days_before_year y + (y + 99) / 100 ≡ 365 * y + (y + 3) / 4 + (y + 399) / 400
days_before_year-formula zero = refl
days_before_year-formula (suc y) = ground (arith, days_before_year-formula y)

-- the bounds of `yoe` and `doy`
day_of_year-bounds :
    (doe : ℕ)
    → doe < 146097
    → (year_of_era doe < 400)
      × (day_of_year doe < 366)
      × (doe
          ≡ 365 * year_of_era doe + year_of_era doe / 4 - year_of_era doe / 100 + day_of_year doe)
day_of_year-bounds doe h = (omega arith, omega arith, omega arith)

-- the last day of the year that starts in March is there in leap years only
day_of_year-leap :
    (doe : ℕ) → doe < 146097 → day_of_year doe ≡ 365 → is_leap (year_of_era doe + 1) ≡ true
day_of_year-leap doe h e = ground arith

abbrev leap_day : ℕ → ℕ
leap_day y = if is_leap y then 1 else 0

-- the days before the month that is `mp` months after March
days_before-march :
    (y mp : ℕ) → mp < 10 → days_before_month y (mp + 3) ≡ (153 * mp + 2) / 5 + 59 + leap_day y
days_before-march y zero h = ground arith
days_before-march y (suc zero) h = ground arith
days_before-march y (suc (suc zero)) h = ground arith
days_before-march y (suc (suc (suc zero))) h = ground arith
days_before-march y (suc (suc (suc (suc zero)))) h = ground arith
days_before-march y (suc (suc (suc (suc (suc zero))))) h = ground arith
days_before-march y (suc (suc (suc (suc (suc (suc zero)))))) h = ground arith
days_before-march y (suc (suc (suc (suc (suc (suc (suc zero))))))) h = ground arith
days_before-march y (suc (suc (suc (suc (suc (suc (suc (suc zero)))))))) h = ground arith
days_before-march y (suc (suc (suc (suc (suc (suc (suc (suc (suc zero))))))))) h = ground arith
days_before-march y (suc (suc (suc (suc (suc (suc (suc (suc (suc (suc mp)))))))))) h =
    absurd (omega arith)

-- A day of a month of the calendar.
abbrev pub IsDate : Civil → Type 0
IsDate c = (1 ≤ c.m) × (c.m ≤ 12) × (1 ≤ c.d) × (c.d ≤ days_in_month c.y c.m)

-- the days from the first of January of year 0 to a date
abbrev pub ordinal : Civil → ℕ
ordinal c = days_before_year c.y + days_before_month c.y c.m + c.d - 1

-- the day of a month is in the month
march_day :
    (y mp doy : ℕ)
    → mp < 10
    → 153 * mp ≤ 5 * doy + 2
    → 5 * doy + 2 < 153 * mp + 153
    → doy - (153 * mp + 2) / 5 + 1 ≤ days_in_month y (mp + 3)
march_day y zero doy h p q = ground arith
march_day y (suc zero) doy h p q = ground arith
march_day y (suc (suc zero)) doy h p q = ground arith
march_day y (suc (suc (suc zero))) doy h p q = ground arith
march_day y (suc (suc (suc (suc zero)))) doy h p q = ground arith
march_day y (suc (suc (suc (suc (suc zero))))) doy h p q = ground arith
march_day y (suc (suc (suc (suc (suc (suc zero)))))) doy h p q = ground arith
march_day y (suc (suc (suc (suc (suc (suc (suc zero))))))) doy h p q = ground arith
march_day y (suc (suc (suc (suc (suc (suc (suc (suc zero)))))))) doy h p q = ground arith
march_day y (suc (suc (suc (suc (suc (suc (suc (suc (suc zero))))))))) doy h p q = ground arith
march_day y (suc (suc (suc (suc (suc (suc (suc (suc (suc (suc mp)))))))))) doy h p q =
    absurd (omega arith)

module _ (year doy : ℕ) where
  abbrev mp : ℕ
  mp = (5 * doy + 2) / 153

  abbrev day : ℕ
  day = doy - (153 * mp + 2) / 5 + 1

  civil_of-late : mp < 10 → civil_of year doy ≡ record { y = year; m = mp + 3; d = day }
  civil_of-late h = ground arith

  civil_of-early :
      doy < 366 → 10 ≤ mp → civil_of year doy ≡ record { y = year + 1; m = mp - 9; d = day }
  civil_of-early b h = ground arith

  late_or_early : (mp < 10) ⊎ (10 ≤ mp)
  late_or_early = ground arith

  ten_or_eleven : doy < 366 → 10 ≤ mp → (mp ≡ 10) ⊎ (mp ≡ 11)
  ten_or_eleven b h = ground arith

  -- the two months after the turn of the year
  days_before-january : doy < 366 → 10 ≤ mp → days_before_month (year + 1) (mp - 9) ≡ (mp - 10) * 31
  days_before-january b h = elim (ten_or_eleven b h) [ inl e ↦ rw e refl | inr e ↦ rw e refl ]

  civil_of-ordinal :
      doy < 366 → ordinal (civil_of year doy) ≡ days_before_year year + 59 + leap_day year + doy
  civil_of-ordinal b = elim late_or_early [
    | inl h ↦ ap ordinal (civil_of-late h) ∙ omega (arith, days_before-march year mp h)
    | inr h ↦
        ap ordinal (civil_of-early b h)
        ∙ ground (
          arith,
          days_before-january b h,
          days_before_year-formula (year + 1),
          days_before_year-formula year,
        )
  ]

  late-IsDate : doy < 366 → mp < 10 → IsDate (record { y = year; m = mp + 3; d = day })
  late-IsDate b h =
      (omega arith, omega arith, omega arith, march_day year mp doy h (omega arith) (omega arith))

  civil_of-IsDate : doy < 366 → (doy ≡ 365 → is_leap (year + 1) ≡ true) → IsDate (civil_of year doy)
  civil_of-IsDate b leap = elim late_or_early [
    | inl h ↦ subst IsDate (sym (civil_of-late h)) (late-IsDate b h)
    | inr h ↦ subst IsDate (sym (civil_of-early b h)) (ground (arith, leap))
  ]

leap_later : (yoe era : ℕ) → is_leap (yoe + 1) ≡ true → is_leap (yoe + era * 400 + 1) ≡ true
leap_later yoe era h = ground arith

next_year-days : (y : ℕ) → days_before_year (suc y) ≡ days_before_year y + 365 + leap_day y
next_year-days y = ground arith

-- the days before the March of a year of an era
years_before :
    (yoe era : ℕ)
    → yoe < 400
    → days_before_year (yoe + era * 400) + leap_day (yoe + era * 400) + yoe / 100
      ≡ era * 146097 + 365 * yoe + yoe / 4 + 1
years_before yoe era b =
    omega
      (arith, days_before_year-formula (suc (yoe + era * 400)), next_year-days (yoe + era * 400))

-- the days of the eras before, and of the years of the era
era_days :
    (days yoe era doy : ℕ)
    → yoe < 400
    → days + 719468 ≡ era * 146097 + (365 * yoe + yoe / 4 - yoe / 100 + doy)
    → days_before_year (yoe + era * 400) + 59 + leap_day (yoe + era * 400) + doy ≡ days + 719528
era_days days yoe era doy b e = omega (arith, years_before yoe era b, e)

in_era : (z : ℕ) {k : ℕ} → z % 146097 ≡ k → z ≡ z / 146097 * 146097 + k
in_era z h = omega arith

-- The date of a day is a date of the Gregorian calendar, and it is that many days after the first of
-- January 1970, which is day 719528 of the calendar that starts with year 0.
pub civil_from_days-ordinal :
    (days : ℕ) → IsDate (civil_from_days days) × (ordinal (civil_from_days days) ≡ days + 719528)
unfolding civil_from_days
civil_from_days-ordinal days =
    let z = days + 719468 in
    let doe = z % 146097 in
    let yoe = year_of_era doe in
    let (a, b, c) = day_of_year-bounds doe (omega arith) in
    (
      civil_of-IsDate (yoe + z / 146097 * 400) (day_of_year doe) b
          (λ e. leap_later yoe (z / 146097) (day_of_year-leap doe (omega arith) e)),
      civil_of-ordinal (yoe + z / 146097 * 400) (day_of_year doe) b
          ∙ era_days days yoe (z / 146097) (day_of_year doe) a (in_era z c),
    )
