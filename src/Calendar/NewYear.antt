-- ===== src/Calendar/NewYear.antt =====
-- The instants at which years begin, firmware/src/epoch_calendar.c.
use xiaomi_feeder_iv.Common.{
  ℕ, zero, suc, ◌+◌, ◌-◌, ◌*◌, ◌≤◌, ◌<◌, ◌≡◌, refl, ap, ◌∙◌, some, arith, sym,
}
use xiaomi_feeder_iv.Common.Int.{pos, pos_part}
use xiaomi_feeder_iv.Calendar.{
  epoch_year, epoch_calendar_is_leap_year, year_days, add_years, add_months, days_from_civil,
  epoch_calendar_from_ymdhms, Civil, epoch_calendar_from_epoch,
}
use xiaomi_feeder_iv.Calendar.Days.{add_years-from, add_months-from}
use xiaomi_feeder_iv.Calendar.Inverse.{from_epoch-Answers}
use xiaomi_feeder_iv.Calendar.RoundTrip.{
  add_years-ge, days_from_civil-nested, no_offset, IsCivil, month_day-lt,
}

-- The days before the k-th year from 1970.
unfoldable pub days_before : ℕ → ℕ
days_before k = add_years epoch_year k 0

add_years-split :
    (y a b n d z : ℕ) → n ≡ a + b → z ≡ y + a → add_years y n d ≡ add_years z b (add_years y a d)
unfolding add_years
add_years-split y zero b n d z e h =
    let same : n ≡ b = omega (arith, e) in
    let here : y ≡ z = omega (arith, h) in
    ap (λ m. add_years y m d) same ∙ ap (λ (x : ℕ). add_years x b d) here
add_years-split y (suc a) b n d z e h =
    let more : n ≡ suc (a + b) = omega (arith, e) in
    ap (λ m. add_years y m d) more
    ∙ add_years-split (y + 1) a b (a + b) (d + year_days y) z refl (omega (arith, h))

days_before-le : (i k : ℕ) → days_before i ≤ days_before (i + k)
unfolding days_before
days_before-le i k = omega (
  arith,
  add_years-split epoch_year i k (i + k) 0 (epoch_year + i) refl refl,
  add_years-ge (epoch_year + i) k (add_years epoch_year i 0),
)

pub days_before_mono : (i k : ℕ) → i ≤ k → days_before i ≤ days_before k
days_before_mono i k h =
    let sum : i + (k - i) ≡ k = omega (arith, h) in
    omega (arith, days_before-le i (k - i), ap days_before sum)

days_before-suc : (k : ℕ) → days_before (k + 1) ≡ days_before k + year_days (epoch_year + k)
unfolding days_before add_years
days_before-suc k = add_years-split epoch_year k 1 (k + 1) 0 (epoch_year + k) refl refl

pub days_before_2100 : days_before 130 ≡ 47_482
unfolding days_before add_years year_days epoch_calendar_is_leap_year
days_before_2100 = refl

first_day :
    (k : ℕ)
    → add_years epoch_year
        (epoch_year + k - epoch_year)
        (add_months (epoch_year + k) 1 (1 - 1) (1 - 1))
      ≡ days_before k
unfolding add_months days_before
first_day k = ap (λ n. add_years epoch_year n 0) (omega arith)

pub new_year :
    (k : ℕ)
    → epoch_calendar_from_ymdhms (epoch_year + k) 1 1 0 0 0 (pos 0) ≡ pos (days_before k * 86400)
unfolding epoch_calendar_from_ymdhms
new_year k =
    no_offset (days_from_civil (epoch_year + k) 1 1 * 86400 + 0 * 3600 + 0 * 60 + 0)
    ∙ ap pos (omega (arith, days_from_civil-nested (epoch_year + k) 1 1, first_day k))

split_days :
    (y m d : ℕ)
    → days_from_civil y m d ≡ days_before (y - epoch_year) + (add_months y 1 (m - 1) 0 + (d - 1))
unfolding days_before
split_days y m d = omega (
  arith,
  days_from_civil-nested y m d,
  add_years-from epoch_year (y - epoch_year) (add_months y 1 (m - 1) (d - 1)),
  add_months-from y 1 (m - 1) (d - 1),
)

in_year :
    (n : ℕ) (c : Civil)
    → IsCivil c
    → epoch_calendar_from_ymdhms c.year c.month c.day c.hour c.min c.sec (pos 0) ≡ pos n
    → (days_before (c.year - epoch_year) * 86400 ≤ n)
      × (n < days_before (c.year - epoch_year + 1) * 86400)
unfolding epoch_calendar_from_ymdhms
in_year n c v e =
    let k = c.year - epoch_year in
    let total = days_from_civil c.year c.month c.day * 86400 + c.hour * 3600 + c.min * 60 + c.sec in
    let is_n : total ≡ n = ap pos_part (sym (no_offset total) ∙ e) in
    let days : days_from_civil c.year c.month c.day
        ≡ days_before k + (add_months c.year 1 (c.month - 1) 0 + (c.day - 1)) =
      split_days c.year c.month c.day in
    let inside =
      month_day-lt c.year c.month c.day v.month_in.0 v.month_in.1 v.day_in.0 v.day_in.1 in
    let next : days_before (k + 1) ≡ days_before k + year_days c.year =
      days_before-suc k
      ∙ ap (λ y. days_before k + year_days y) (sym (that_year c.year v.year_in.0)) in
    (
      omega (arith, is_n, days),
      omega (arith, is_n, days, inside, next, v.hour_in, v.min_in, v.sec_in),
    )
  where
    that_year : (y : ℕ) → epoch_year ≤ y → y ≡ epoch_year + (y - epoch_year)
    that_year y h = omega arith

-- The year of the answer is the one that the instant lies in.
pub from_epoch-year :
    (n : ℕ) (c : Civil)
    → n < 2_000_000_000_000
    → epoch_calendar_from_epoch (pos n) ≡ some c
    → (epoch_year ≤ c.year)
      × (days_before (c.year - epoch_year) * 86400 ≤ n)
      × (n < days_before (c.year - epoch_year + 1) * 86400)
from_epoch-year n c h e =
    let a = from_epoch-Answers n h in
    let same : a.civil ≡ c = cc (e, a.returns) in
    let (lo, hi) = in_year n a.civil a.valid a.epoch_is in rw (← same) (a.valid.year_in.0, lo, hi)
