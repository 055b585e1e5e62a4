-- ===== src/Command/Utc.antt =====
-- `UtcTime` of src/date_utils.cpp, by `gmtime_r` of the C library, for times that are not negative,
-- and the texts that src/remote_command.cpp makes of it by `strftime`.
use quick_logger.Prelude.{
  ℕ, ◌+◌, ◌-◌, ◌*◌, ◌/◌, ◌%◌, [], ◌∷◌, ◌++◌, if◌then◌else◌, ltb, Bytes, codes,
}
use quick_logger.Prelude.Decimal.{to_string}

-- `std::tm`, with the year and the month from 1 on.
pub record UtcDate : Type 0 where
  pub year : ℕ
  pub month : ℕ
  pub day : ℕ
  pub hour : ℕ
  pub minute : ℕ
  pub second : ℕ

-- Years are counted from March, so that a leap day is the last of its year: `month` counts from 0.
abbrev shifted_date : ℕ → ℕ → ℕ → ℕ → UtcDate
shifted_date year month day clock = record {
  year = if ltb month 10 then year else year + 1;
  month = if ltb month 10 then month + 3 else month - 9;
  day = day;
  hour = clock / 3600;
  minute = clock / 60 % 60;
  second = clock % 60;
}

-- A day of an era of 400 years.
abbrev year_of_era : ℕ → ℕ
year_of_era day = (day + day / 36524 - day / 1460 - day / 146096) / 365

abbrev day_of_year : ℕ → ℕ
day_of_year day = day + year_of_era day / 100 - 365 * year_of_era day - year_of_era day / 4

-- `days` from the first of March of the year 0.
abbrev date_of_days : ℕ → ℕ → UtcDate
date_of_days days clock =
    let day = days % 146097 in
    let month = (5 * day_of_year day + 2) / 153 in
    shifted_date (year_of_era day + days / 146097 * 400) month
      (day_of_year day - (153 * month + 2) / 5 + 1) clock

unfoldable pub utc_time : ℕ → UtcDate
utc_time seconds = date_of_days (seconds / 86400 + 719468) (seconds % 86400)

abbrev two_digits : ℕ → Bytes
two_digits n = (48 + n / 10) ∷ (48 + n % 10) ∷ []

-- "%Y-%m-%d %H:%M UTC"
abbrev label_of : UtcDate → Bytes
label_of date =
    to_string date.year
    ++ b'-'
      ∷ (two_digits date.month
          ++ b'-'
            ∷ (two_digits date.day
                ++ b' '
                  ∷ (two_digits date.hour ++ b':' ∷ (two_digits date.minute ++ codes " UTC"))))

unfoldable pub utc_label : ℕ → Bytes
unfolding utc_time
utc_label seconds = label_of (utc_time seconds)

-- "_%H%M%S"
abbrev stem_of : UtcDate → Bytes
stem_of date = b'_' ∷ (two_digits date.hour ++ two_digits date.minute ++ two_digits date.second)

unfoldable pub utc_stem : ℕ → Bytes
unfolding utc_time
utc_stem seconds = stem_of (utc_time seconds)
