-- ===== src/Calendar/Weekday.antt =====
-- The n-th weekday of a month, firmware/src/epoch_calendar.c.
use xiaomi_feeder_iv.Common.{
  ltb, if◌then◌else◌, All, ℕ, zero, suc, ◌+◌, ◌-◌, ◌*◌, ◌/◌, ◌%◌, ◌≤◌, ◌<◌, ◌≡◌, refl, ◌⊎◌, inl,
  Option, some, List, [], ◌∷◌, arith, ◌==◌, if_both, ap, ◌∙◌, inr, true,
}
use xiaomi_feeder_iv.Calendar.{
  month_table, get_or, epoch_calendar_days_in_month, epoch_calendar_weekday_sun0, last_weekday,
  epoch_calendar_nth_weekday,
}

get_or-ge : (xs : List ℕ) (i d b : ℕ) → All (λ x. b ≤ x) xs → b ≤ d → b ≤ get_or xs i d
get_or-ge [] i d b h k = k
get_or-ge (x ∷ xs) zero d b h k = h.0
get_or-ge (x ∷ xs) (suc i) d b h k = get_or-ge xs i d b h.1 k

days_in_month-ge : (y m : ℕ) → 28 ≤ epoch_calendar_days_in_month y m
unfolding epoch_calendar_days_in_month
days_in_month-ge y m =
    ground (arith, get_or-ge month_table (m - 1) 30 28 (omega arith) (omega arith))

-- The weekday depends on the day through a sum.
weekday-sum : (y m : ℕ) → (r : ℕ) × ((d : ℕ) → epoch_calendar_weekday_sun0 y m d ≡ (d + r) % 7)
unfolding epoch_calendar_weekday_sun0
weekday-sum y m =
    let m' = if ltb m 3 then m + 12 else m in
    let y' = if ltb m 3 then y - 1 else y in
    let k = y' % 100 in
    ((13 * (m' + 1)) / 5 + k + k / 4 + (y' / 100) / 4 + 5 * (y' / 100), λ d. omega arith)

-- The day that `nth_weekday` answers: in the month, on the weekday, and in the asked week: the
-- n-th seven days of the month, or its last seven for 5.
pub record OnDay (year month week dow : ℕ) (r : Option ℕ) : Type 0 where
  pub day : ℕ
  pub returns : r ≡ some day
  pub in_month : (1 ≤ day) × (day ≤ epoch_calendar_days_in_month year month)
  pub on_weekday : epoch_calendar_weekday_sun0 year month day ≡ dow
  pub in_week :
      ((week < 5) × ((week - 1) * 7 < day) × (day ≤ week * 7))
      ⊎ ((week ≡ 5) × (epoch_calendar_days_in_month year month < day + 7))

module _ (y m dow : ℕ) where
  -- The loop finds the weekday at most `j` days back.
  Found : ℕ → ℕ → Option ℕ → Type 0
  Found day j r =
      (d : ℕ) × (r ≡ some d) × (day ≤ d + j) × (d ≤ day) × (epoch_calendar_weekday_sun0 y m d ≡ dow)

  back_one : (day j : ℕ) → 1 ≤ day → (r : Option ℕ) → Found (day - 1) j r → Found day (suc j) r
  unfolding Found
  back_one day j l r (d, e, a, b, w) = (d, e, omega (arith, a), omega (arith, b), w)

  here : (day j : ℕ) → (epoch_calendar_weekday_sun0 y m day == dow) ≡ true → Found day j (some day)
  unfolding Found
  here day j t = (day, refl, omega arith, omega arith, ground arith)

  last_weekday-Found :
      (fuel day j : ℕ)
      → j < fuel
      → j < day
      → epoch_calendar_weekday_sun0 y m (day - j) ≡ dow
      → Found day j (last_weekday fuel y m dow day)
  unfolding last_weekday
  last_weekday-Found zero day j h l e = absurd (omega (arith, h))
  last_weekday-Found (suc fuel) day zero h l e =
      if_both (Found day 0) (epoch_calendar_weekday_sun0 y m day == dow) (some day) _ (here day 0)
        (λ f. absurd (ground (arith, ap (epoch_calendar_weekday_sun0 y m) (no_days day))))
    where
      no_days : (day : ℕ) → day ≡ day - 0
      no_days day = omega arith
  last_weekday-Found (suc fuel) day (suc j) h l e =
      if_both (Found day (suc j)) (epoch_calendar_weekday_sun0 y m day == dow) (some day) _
        (here day (suc j))
        (λ f. back_one day j (omega arith) _ (
          last_weekday-Found fuel (day - 1) j (omega arith) (omega arith)
            (ap (epoch_calendar_weekday_sun0 y m) (one_less day j) ∙ e)))
    where
      one_less : (day j : ℕ) → day - 1 - j ≡ day - suc j
      one_less day j = omega arith

module _ (y m w dow : ℕ) (week_in : (1 ≤ w) × (w ≤ 5)) (dow_in : dow ≤ 6) where
  early-OnDay :
      w < 5
      → (r : ℕ) → ((d : ℕ) → epoch_calendar_weekday_sun0 y m d ≡ (d + r) % 7)
      → OnDay y m w dow (some (1 + (dow + 7 - epoch_calendar_weekday_sun0 y m 1) % 7 + (w - 1) * 7))
  early-OnDay l r wd =
      let day = 1 + (dow + 7 - epoch_calendar_weekday_sun0 y m 1) % 7 + (w - 1) * 7 in
      record {
        day = day;
        returns = refl;
        in_month = (omega arith, omega (arith, l, days_in_month-ge y m));
        on_weekday = omega (arith, wd day, wd 1, dow_in);
        in_week = inl (l, omega arith, omega (arith, week_in));
      }

  last-OnDay :
      w ≡ 5
      → (r : ℕ) → ((d : ℕ) → epoch_calendar_weekday_sun0 y m d ≡ (d + r) % 7)
      → OnDay y m w dow (last_weekday 7 y m dow (epoch_calendar_days_in_month y m))
  unfolding Found
  last-OnDay l r wd =
      let dim = epoch_calendar_days_in_month y m in
      let back = ((dim + r) % 7 + 7 - dow) % 7 in
      let long = days_in_month-ge y m in
      let (d, e, a, b, f) =
        last_weekday-Found y m dow 7 dim back (omega arith) (omega (arith, long))
          (omega (arith, wd (dim - back), dow_in, long)) in
      record {
        day = d;
        returns = e;
        in_month = (omega (arith, a, long), b);
        on_weekday = f;
        in_week = inr (l, omega (arith, a));
      }

  -- For a week from 1 to 5 and a weekday up to 6, `epoch_calendar_nth_weekday` answers a day of
  -- the month that `epoch_calendar_weekday_sun0` puts on the weekday: the one in the week-th seven
  -- days of the month, or for 5 the one in its last seven.
  pub nth_weekday-OnDay : OnDay y m w dow (epoch_calendar_nth_weekday y m w dow)
  unfolding epoch_calendar_nth_weekday
  nth_weekday-OnDay =
      let (r, wd) = weekday-sum y m in
      let dim = epoch_calendar_days_in_month y m in
      let day = 1 + (dow + 7 - epoch_calendar_weekday_sun0 y m 1) % 7 + (w - 1) * 7 in
      if_both (OnDay y m w dow) (w == 5) (last_weekday 7 y m dow dim) _
        (λ t. last-OnDay (ground arith) r wd)
        (λ f.
          if_both (λ (x : ℕ). OnDay y m w dow (some x)) (ltb dim day) (day - 7) day
            (λ t. absurd (ground (arith, t, f, days_in_month-ge y m)))
            (λ _. early-OnDay (ground arith) r wd))
