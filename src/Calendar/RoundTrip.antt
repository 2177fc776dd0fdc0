-- ===== src/Calendar/RoundTrip.antt =====
-- `epoch_calendar_from_epoch` and `epoch_calendar_from_ymdhms` undo one another from 1970 on.
use xiaomi_feeder_iv.Common.{
  ℕ, zero, suc, ◌+◌, ◌-◌, ◌*◌, ◌≤◌, ◌<◌, ◌≡◌, ap, arith, All, ◌/◌, ◌%◌, some, List, [], ◌∷◌, ◌∙◌,
  u8, u16, Option,
}
use xiaomi_feeder_iv.Common.Int.{pos, sub_ℕ, ◌-ℤ◌}
use xiaomi_feeder_iv.Calendar.{
  epoch_year, epoch_calendar_days_in_month, year_days, add_years, add_months, days_from_civil,
  Civil, month_table, get_or, epoch_calendar_from_ymdhms, take_years, take_months,
  epoch_calendar_from_epoch,
}
use xiaomi_feeder_iv.Calendar.Days.{
  add_years-from, add_months-from, add_months-last, twelve_months, add_months_mono, take_years-add,
  take_months-add,
}

-- A date and a time of day from 1970 on, in the years that fit a uint16_t.
pub record IsCivil (c : Civil) : Type 0 where
  pub year_in : (epoch_year ≤ c.year) × (c.year < 65536)
  pub month_in : (1 ≤ c.month) × (c.month ≤ 12)
  pub day_in : (1 ≤ c.day) × (c.day ≤ epoch_calendar_days_in_month c.year c.month)
  pub hour_in : c.hour < 24
  pub min_in : c.min < 60
  pub sec_in : c.sec < 60

get_or-le : (xs : List ℕ) (i d b : ℕ) → All (λ x. x ≤ b) xs → d ≤ b → get_or xs i d ≤ b
get_or-le [] i d b h k = k
get_or-le (x ∷ xs) zero d b h k = h.0
get_or-le (x ∷ xs) (suc i) d b h k = get_or-le xs i d b h.1 k

pub days_in_month-le : (y m : ℕ) → epoch_calendar_days_in_month y m ≤ 31
unfolding epoch_calendar_days_in_month
days_in_month-le y m =
    ground (arith, get_or-le month_table (m - 1) 30 31 (omega arith) (omega arith))

pub year_days_pos : (y : ℕ) → 365 ≤ year_days y
unfolding year_days
year_days_pos y = ground arith

pub add_years-ge : (y n a : ℕ) → n * 365 + a ≤ add_years y n a
unfolding add_years
add_years-ge y zero a = omega arith
add_years-ge y (suc n) a = omega (arith, add_years-ge (y + 1) n (a + year_days y), year_days_pos y)

-- A day of the year is counted within the year.
pub month_day-lt :
    (y m d : ℕ)
    → 1 ≤ m
    → m ≤ 12
    → 1 ≤ d
    → d ≤ epoch_calendar_days_in_month y m
    → add_months y 1 (m - 1) 0 + (d - 1) < year_days y
month_day-lt y m d lo hi a b = omega (
  arith,
  twelve_months y,
  add_months-last y 1 (m - 1),
  ap (epoch_calendar_days_in_month y) (one_more m lo),
  add_months_mono y 1 (suc (m - 1)) (12 - m),
  ap (λ k. add_months y 1 k 0) (twelve m lo hi),
)
  where
    one_more : (k : ℕ) → 1 ≤ k → 1 + (k - 1) ≡ k
    one_more k h = omega arith

    twelve : (k : ℕ) → 1 ≤ k → k ≤ 12 → 12 - k + suc (k - 1) ≡ 12
    twelve k p q = omega arith

module _ (y m d : ℕ) where
  pub days_from_civil-nested :
      days_from_civil y m d ≡ add_years epoch_year (y - epoch_year) (add_months y 1 (m - 1) (d - 1))
  unfolding days_from_civil
  days_from_civil-nested = omega (
    arith,
    add_months-from y 1 (m - 1) (add_years epoch_year (y - epoch_year) 0),
    add_months-from y 1 (m - 1) (d - 1),
    add_years-from epoch_year (y - epoch_year) (add_months y 1 (m - 1) (d - 1)),
  )

-- The seconds of a day split off.
seconds_split :
    (n h m s : ℕ)
    → h < 24
    → m < 60
    → s < 60
    → let e = n * 86400 + h * 3600 + m * 60 + s in
      (e / 86400 ≡ n) × (e % 86400 / 3600 ≡ h) × (e % 86400 % 3600 / 60 ≡ m) × (e % 86400 % 60 ≡ s)
seconds_split n h m s hh hm hs = omega arith

pub no_offset : (n : ℕ) → pos n -ℤ sub_ℕ (0 * 60) (0 * 60) ≡ pos n
unfolding ◌-ℤ◌
no_offset n = ground arith

-- The casts of the stores change nothing.
pub casts :
    (y m d e h mi s n : ℕ)
    → e ≡ d
    → y < 65536
    → m ≤ 12
    → 1 ≤ d
    → d ≤ 31
    → h < 24
    → mi < 60
    → s < 60
    → ◌≡◌ {A = Option Civil}
        (some (record {
          year = u16 y;
          month = u8 m;
          day = u8 e;
          hour = u8 h;
          min = u8 mi;
          sec = u8 s;
          wday_sun0 = u8 ((n + 4) % 7);
        }))
        (some (record {
          year = y;
          month = m;
          day = d;
          hour = h;
          min = mi;
          sec = s;
          wday_sun0 = (n + 4) % 7;
        }))
casts y m d e h mi s n q a b c r f g k = ground arith

module _ (c : Civil) (v : IsCivil c) where
  open c use {year, month, day, hour, min, sec}

  inner : ℕ
  inner = add_months year 1 (month - 1) (day - 1)

  inner-lt : inner < year_days year
  unfolding inner
  inner-lt = omega (
    arith,
    add_months-from year 1 (month - 1) (day - 1),
    month_day-lt year month day v.month_in.0 v.month_in.1 v.day_in.0 v.day_in.1,
  )

  year_back : epoch_year + (year - epoch_year) ≡ year
  year_back = omega (arith, v.year_in)

  year_found :
      take_years (suc (days_from_civil year month day)) epoch_year (days_from_civil year month day)
      ≡ some (year, inner)
  unfolding inner
  year_found =
      let nested = days_from_civil-nested year month day in
      ap (take_years (suc (days_from_civil year month day)) epoch_year) nested
      ∙ (take_years-add (year - epoch_year) (suc (days_from_civil year month day)) epoch_year inner
            (rw year_back inner-lt)
            (omega (arith, nested, add_years-ge epoch_year (year - epoch_year) inner))
          ∙ ap (λ y. some (y, inner)) year_back)

  month_back : 1 + (month - 1) ≡ month
  month_back = omega (arith, v.month_in)

  month_found : take_months 12 year 1 inner ≡ some (month, day - 1)
  unfolding inner
  month_found =
      take_months-add (month - 1) 12 year 1 (day - 1) (rw month_back (omega (arith, v.day_in)))
        (omega (arith, v.month_in))
      ∙ ap (λ m. some (m, day - 1)) month_back

  -- A civil time comes back from its epoch, with the weekday counted from Thursday 1970-01-01.
  pub from_epoch-from_ymdhms :
      epoch_calendar_from_epoch (epoch_calendar_from_ymdhms year month day hour min sec (pos 0))
      ≡ some (record c { wday_sun0 = (days_from_civil year month day + 4) % 7 })
  unfolding epoch_calendar_from_epoch epoch_calendar_from_ymdhms
  from_epoch-from_ymdhms =
      let (d, h, m, t) =
        seconds_split (days_from_civil year month day) hour min sec v.hour_in v.min_in v.sec_in in
      rw (no_offset _, d, year_found, month_found, h, m, t)
        (casts year month day (day - 1 + 1) hour min sec (days_from_civil year month day)
          (omega (arith, v.day_in)) v.year_in.1 v.month_in.1 v.day_in.0
          (omega (arith, v.day_in, days_in_month-le year month)) v.hour_in v.min_in v.sec_in)
