-- ===== src/Calendar.antt =====
-- Unix time and the civil calendar, firmware/src/epoch_calendar.c.
-- A year, a month and a day are natural numbers; an epoch and an offset are integers. A loop that
-- subtracts years or months takes fuel and answers `none` when it runs out, which
-- `Calendar.Inverse` shows not to happen from 1970 on.
pub mod Days
pub mod RoundTrip
pub mod Inverse
pub mod NewYear
pub mod Weekday
use xiaomi_feeder_iv.Common.{
  ltb, leb, ◌==◌, if◌then◌else◌, u8, u16, ℕ, zero, suc, ◌+◌, ◌-◌, ◌*◌, ◌/◌, ◌%◌, Bool, not, ◌&&◌,
  ◌||◌, Option, none, some, List, [], ◌∷◌, ◌<◌,
}
use xiaomi_feeder_iv.Common.Int.{ℤ, pos, pos_part, neg_part, sub_ℕ, ◌-ℤ◌, negsuc, ltb_ℤ, tmod}

-- A year before 1970 is reached only from a negative epoch.
abbrev pub epoch_year : ℕ
epoch_year = 1970

unfoldable pub epoch_calendar_is_leap_year : ℕ → Bool
epoch_calendar_is_leap_year year = (year % 4 == 0 && not (year % 100 == 0)) || year % 400 == 0

abbrev pub month_table : List ℕ
month_table = 31 ∷ 28 ∷ 31 ∷ 30 ∷ 31 ∷ 30 ∷ 31 ∷ 31 ∷ 30 ∷ 31 ∷ 30 ∷ 31 ∷ []

abbrev pub get_or : List ℕ → ℕ → ℕ → ℕ
get_or [] i d = d
get_or (x ∷ xs) zero d = x
get_or (x ∷ xs) (suc i) d = get_or xs i d

unfoldable pub epoch_calendar_days_in_month : ℕ → ℕ → ℕ
epoch_calendar_days_in_month year month =
    if ltb month 1 || ltb 12 month
    then 30
    else if month == 2 && epoch_calendar_is_leap_year year
    then 29
    else get_or month_table (month - 1) 30

-- For a positive year, as every caller has; `y - 1` is then no underflow.
pub epoch_calendar_weekday_sun0 : ℕ → ℕ → ℕ → ℕ
epoch_calendar_weekday_sun0 year month day =
    let m = if ltb month 3 then month + 12 else month in
    let y = if ltb month 3 then year - 1 else year in
    let k = y % 100 in (day + (13 * (m + 1)) / 5 + k + k / 4 + (y / 100) / 4 + 5 * (y / 100)) % 7

-- The loop that looks back from the end of the month.
pub last_weekday : ℕ → ℕ → ℕ → ℕ → ℕ → Option ℕ
last_weekday zero year month dow day = none
last_weekday (suc fuel) year month dow day =
    let rest = last_weekday fuel year month dow (day - 1) in
    if epoch_calendar_weekday_sun0 year month day == dow then some day else rest

-- `week` is from 1 to 5 and `dow` below 7.
unfoldable pub epoch_calendar_nth_weekday : ℕ → ℕ → ℕ → ℕ → Option ℕ
epoch_calendar_nth_weekday year month week dow =
    let dim = epoch_calendar_days_in_month year month in
    let first_wday = epoch_calendar_weekday_sun0 year month 1 in
    let day = 1 + (dow + 7 - first_wday) % 7 + (week - 1) * 7 in
    if week == 5
    then last_weekday 7 year month dow dim
    else some (if ltb dim day then day - 7 else day)

unfoldable pub year_days : ℕ → ℕ
year_days year = if epoch_calendar_is_leap_year year then 366 else 365

-- `for (y = from; y < from + n; y++) days += ...`
pub add_years : ℕ → ℕ → ℕ → ℕ
add_years y zero days = days
add_years y (suc n) days = add_years (y + 1) n (days + year_days y)

pub add_months : ℕ → ℕ → ℕ → ℕ → ℕ
add_months year m zero days = days
add_months year m (suc n) days =
    add_months year (m + 1) n (days + epoch_calendar_days_in_month year m)

-- The days from 1970-01-01 to a date from then on.
unfoldable pub days_from_civil : ℕ → ℕ → ℕ → ℕ
unfolding add_years add_months
days_from_civil year month day =
    add_months year 1 (month - 1) (add_years epoch_year (year - epoch_year) 0) + (day - 1)

pub epoch_calendar_from_ymdhms : ℕ → ℕ → ℕ → ℕ → ℕ → ℕ → ℤ → ℤ
unfolding days_from_civil
epoch_calendar_from_ymdhms year month day hour min sec offset_min =
    pos (days_from_civil year month day * 86400 + hour * 3600 + min * 60 + sec)
    -ℤ sub_ℕ (pos_part offset_min * 60) (neg_part offset_min * 60)

-- What `epoch_calendar_from_epoch` writes through its pointers.
pub record Civil : Type 0 where
  pub year : ℕ
  pub month : ℕ
  pub day : ℕ
  pub hour : ℕ
  pub min : ℕ
  pub sec : ℕ
  pub wday_sun0 : ℕ

-- The loop that takes whole years off, and the one that takes whole months off.
pub take_years : ℕ → ℕ → ℕ → Option (ℕ × ℕ)
take_years zero year days = none
take_years (suc fuel) year days =
    let rest = take_years fuel (year + 1) (days - year_days year) in
    if ltb days (year_days year) then some (year, days) else rest

pub take_months : ℕ → ℕ → ℕ → ℕ → Option (ℕ × ℕ)
take_months zero year month days = none
take_months (suc fuel) year month days =
    let rest = take_months fuel year (month + 1) (days - epoch_calendar_days_in_month year month) in
    if ltb days (epoch_calendar_days_in_month year month) then some (month, days) else rest

-- The stores at the end, with their casts.
abbrev pub civil_of : ℕ → ℕ → ℕ → ℕ → ℕ → Civil
civil_of year month days rem wday = record {
  year = u16 year;
  month = u8 month;
  day = u8 (days + 1);
  hour = u8 (rem / 3600);
  min = u8 (rem % 3600 / 60);
  sec = u8 (rem % 60);
  wday_sun0 = u8 wday;
}

abbrev pub finish_months : ℕ → ℕ → Option (ℕ × ℕ) → ℕ → Option Civil
finish_months rem wday none year = none
finish_months rem wday (some (month, days)) year = some (civil_of year month days rem wday)

abbrev pub finish_years : ℕ → ℕ → Option (ℕ × ℕ) → Option Civil
finish_years rem wday none = none
finish_years rem wday (some (year, days)) = finish_months rem wday (take_months 12 year 1 days) year

-- The first loop of the negative branch: `days` is -(n), and a year is added back each time. The
-- answer is the year and the days into it.
pub back_years : ℕ → ℕ → ℕ → Option (ℕ × ℕ)
back_years zero year n = none
back_years (suc fuel) year n =
    let rest = back_years fuel (year - 1) (n - year_days (year - 1)) in
    if leb n (year_days (year - 1)) then some (year - 1, year_days (year - 1) - n) else rest

abbrev pub resume_years : ℕ → ℕ → Option (ℕ × ℕ) → Option Civil
resume_years rem wday none = none
resume_years rem wday (some (year, days)) = finish_years rem wday (take_years 1 year days)

-- C's remainder by 7 is negative for a negative number, and is then moved up by 7.
abbrev pub wrap_week : ℤ → ℕ
wrap_week w = if ltb_ℤ w (pos 0) then 7 - neg_part w else pos_part w

-- For an epoch -m before 1970, the whole days that `days` is below 0, after the correction.
abbrev pub days_back : ℕ → ℕ
days_back m = if m % 86400 == 0 then m / 86400 else m / 86400 + 1

abbrev pub rem_back : ℕ → ℕ
rem_back m = if m % 86400 == 0 then 0 else 86400 - m % 86400

unfoldable pub epoch_calendar_from_epoch : ℤ → Option Civil
unfolding take_years take_months back_years
epoch_calendar_from_epoch (pos epoch) =
    let days = epoch / 86400 in
    finish_years (epoch % 86400) ((days + 4) % 7) (take_years (suc days) epoch_year days)
epoch_calendar_from_epoch (negsuc n) =
    let m = suc n in
    resume_years (rem_back m) (wrap_week (tmod (sub_ℕ 4 (m / 86400)) 7))
      (back_years (suc (days_back m)) epoch_year (days_back m))
