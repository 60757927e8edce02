-- ===== src/Naming/Dates.antt =====
-- `civil_from_days` and the timestamp of `utc_now` of crates/sniff-core/src/snapshot.rs.
pub mod Calendar
use Prim.Native.String.{◌++◌ as str_append}
use sniff_css.Prelude.{
  ℕ, zero, suc, ◌+◌, ◌-◌, ◌*◌, ◌/◌, ◌%◌, String, ltb, leb, if◌then◌else◌, decimal,
}

pub record Civil : Type 0 where
  pub y : ℕ
  pub m : ℕ
  pub d : ℕ

-- the variables `yoe` and `doy`, of the day of an era
abbrev pub year_of_era : ℕ → ℕ
year_of_era doe = (doe - doe / 1460 + doe / 36524 - doe / 146096) / 365

abbrev pub day_of_year : ℕ → ℕ
day_of_year doe = let yoe = year_of_era doe in doe - (365 * yoe + yoe / 4 - yoe / 100)

abbrev pub civil_of : ℕ → ℕ → Civil
civil_of year doy =
    let mp = (5 * doy + 2) / 153 in
    let m = if ltb mp 10 then mp + 3 else mp - 9 in
    record { y = if leb m 2 then year + 1 else year; m = m; d = doy - (153 * mp + 2) / 5 + 1 }

-- The days are those since 1970, so that the argument and all that is computed from it are natural
-- numbers, and far below the bounds of `i64`.
unfoldable pub civil_from_days : ℕ → Civil
civil_from_days days =
    let z = days + 719468 in
    let doe = z % 146097 in civil_of (year_of_era doe + z / 146097 * 400) (day_of_year doe)

-- `{n:04}` and `{n:02}`
abbrev pub padded2 : ℕ → String
padded2 n = if ltb n 10 then str_append "0" (decimal n) else decimal n

abbrev pub padded4 : ℕ → String
padded4 n =
    if ltb n 100
    then str_append "00" (padded2 n)
    else if ltb n 1000
    then str_append "0" (decimal n)
    else decimal n

-- `utc_now`, at the seconds since 1970 that the clock shows
unfoldable pub utc_at : ℕ → String
unfolding civil_from_days decimal
utc_at secs =
    let day = civil_from_days (secs / 86400) in
    let sod = secs % 86400 in
    str_append (padded4 day.y) (
      str_append (padded2 day.m) (
        str_append (padded2 day.d) (
          str_append "T" (
            str_append (padded2 (sod / 3600))
              (str_append (padded2 (sod % 3600 / 60)) (str_append (padded2 (sod % 60)) "Z"))))))
