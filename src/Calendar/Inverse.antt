-- ===== src/Calendar/Inverse.antt =====
-- `epoch_calendar_from_epoch` always returns, and `epoch_calendar_from_ymdhms` undoes it.
use native.Mathlib.Nat.{add-zero}
use xiaomi_feeder_iv.Common.Int.{pos}
use xiaomi_feeder_iv.Common.{
  ltb, ltb→lt, Bool-cases, ℕ, zero, suc, ◌+◌, ◌-◌, ◌≤◌, ◌<◌, ◌≡◌, refl, ap, ◌∙◌, inl, inr, Option,
  some, arith, ltb→ge, ◌*◌, ◌/◌, ◌%◌, sym,
}
use xiaomi_feeder_iv.Calendar.{
  epoch_calendar_days_in_month, year_days, add_years, add_months, take_years, take_months,
  epoch_year, epoch_calendar_from_ymdhms, Civil, epoch_calendar_from_epoch, days_from_civil,
  finish_months, finish_years,
}
use xiaomi_feeder_iv.Calendar.Days.{
  later, add_months-step, add_years_add, add_months_add, twelve_months,
}
use xiaomi_feeder_iv.Calendar.RoundTrip.{
  year_days_pos, IsCivil, days_in_month-le, add_years-ge, days_from_civil-nested, no_offset, casts,
}

-- What a loop that takes years off has found.
record YearFound (y d : ℕ) (r : Option (ℕ × ℕ)) : Type 0 where
  years : ℕ
  rest : ℕ
  returns : r ≡ some (y + years, rest)
  adds_up : d ≡ add_years y years rest
  within : rest < year_days (y + years)

years_up :
    (y n r d : ℕ)
    → year_days y ≤ d
    → d - year_days y ≡ add_years (y + 1) n r
    → d ≡ add_years y (suc n) r
unfolding add_years
years_up y n r d le e = omega (arith, e, le, add_years_add (y + 1) n r (year_days y))

months_up :
    (y m n r d : ℕ)
    → epoch_calendar_days_in_month y m ≤ d
    → d - epoch_calendar_days_in_month y m ≡ add_months y (m + 1) n r
    → d ≡ add_months y m (suc n) r
unfolding add_months
months_up y m n r d le e =
    omega (arith, e, le, add_months_add y (m + 1) n r (epoch_calendar_days_in_month y m))

take_years-YearFound : (fuel y d : ℕ) → d < fuel → YearFound y d (take_years fuel y d)
unfolding take_years
take_years-YearFound zero y d h = absurd (omega arith)
take_years-YearFound (suc fuel) y d h = elim (Bool-cases (ltb d (year_days y))) [
  | inl t ↦ rw t (record {
    years = 0;
    rest = d;
    returns = rw (add-zero y);
    adds_up = unfold add_years in refl;
    within = rw (add-zero y) (ltb→lt _ _ t);
  })
  | inr f ↦
      let next : YearFound (y + 1) (d - year_days y) (take_years fuel (y + 1) (d - year_days y)) =
        take_years-YearFound fuel (y + 1) (d - year_days y) (ground (arith, year_days_pos y)) in
      rw f (record {
        years = suc (next.years);
        rest = next.rest;
        returns = next.returns ∙ ap (λ k. some (k, next.rest)) (later y next.years);
        adds_up = years_up y next.years next.rest d (ltb→ge _ _ f) next.adds_up;
        within = rw (← later y next.years) next.within;
      })
]

record MonthFound (y m d : ℕ) (r : Option (ℕ × ℕ)) : Type 0 where
  months : ℕ
  rest : ℕ
  returns : r ≡ some (m + months, rest)
  adds_up : d ≡ add_months y m months rest
  within : rest < epoch_calendar_days_in_month y (m + months)
  in_year : m + months ≤ 12

take_months-MonthFound :
    (fuel y m d : ℕ)
    → m + fuel ≡ 13
    → d < add_months y m fuel 0
    → MonthFound y m d (take_months fuel y m d)
unfolding take_months
take_months-MonthFound zero y m d e h = absurd (unfold add_months in omega (arith, h))
take_months-MonthFound (suc fuel) y m d e h =
    elim (Bool-cases (ltb d (epoch_calendar_days_in_month y m))) [
      | inl t ↦ rw t (record {
        months = 0;
        rest = d;
        returns = rw (add-zero m);
        adds_up = unfold add_months in refl;
        within = rw (add-zero m) (ltb→lt _ _ t);
        in_year = omega arith;
      })
      | inr f ↦
          let x = epoch_calendar_days_in_month y m in
          let next : MonthFound y (m + 1) (d - x) (take_months fuel y (m + 1) (d - x)) =
            take_months-MonthFound fuel y (m + 1) (d - x) (omega arith)
              (ground (arith, add_months-step y m fuel, year_days_pos y)) in
          rw f (record {
            months = suc (next.months);
            rest = next.rest;
            returns = next.returns ∙ ap (λ k. some (k, next.rest)) (later m next.months);
            adds_up = months_up y m next.months next.rest d (ltb→ge _ _ f) next.adds_up;
            within = rw (← later m next.months) next.within;
            in_year = omega (arith, next.in_year);
          })
    ]

-- From 1970 up to an epoch of 2 * 10^12, past the year 65000, the answer exists, is a valid civil
-- time, and has the given epoch.
pub record Answers (epoch : ℕ) (r : Option Civil) : Type 0 where
  pub civil : Civil
  pub returns : r ≡ some civil
  pub valid : IsCivil civil
  pub epoch_is :
      epoch_calendar_from_ymdhms civil.year civil.month civil.day civil.hour civil.min civil.sec
        (pos 0)
      ≡ pos epoch

time_split :
    (rem : ℕ)
    → rem < 86400
    → (rem / 3600 < 24)
      × (rem % 3600 / 60 < 60)
      × (rem % 60 < 60)
      × (rem / 3600 * 3600 + rem % 3600 / 60 * 60 + rem % 60 ≡ rem)
time_split rem h = omega arith

module _ (days rem : ℕ) (hd : days ≤ 23_148_148) (hr : rem < 86400) where
  finish_months-Answers :
      (n mo d : ℕ)
      → d < epoch_calendar_days_in_month (epoch_year + n) (1 + mo)
      → 1 + mo ≤ 12
      → days ≡ add_years epoch_year n (add_months (epoch_year + n) 1 mo d)
      → (r : Option (ℕ × ℕ)) → r ≡ some (1 + mo, d)
      → Answers (days * 86400 + rem) (finish_months rem ((days + 4) % 7) r (epoch_year + n))
  finish_months-Answers n mo d hm hy e r er =
      let (th, tm, ts, te) = time_split rem hr in
      let dl : d + 1 ≤ 31 = omega (arith, hm, days_in_month-le (epoch_year + n) (1 + mo)) in
      let yl : epoch_year + n < 65536 =
        omega (arith, e, hd, add_years-ge epoch_year n (add_months (epoch_year + n) 1 mo d)) in
      let nested : days_from_civil (epoch_year + n) (1 + mo) (d + 1) ≡ days =
        days_from_civil-nested (epoch_year + n) (1 + mo) (d + 1) ∙ same n mo d ∙ sym e in
      record {
        civil = record {
          year = epoch_year + n;
          month = 1 + mo;
          day = d + 1;
          hour = rem / 3600;
          min = rem % 3600 / 60;
          sec = rem % 60;
          wday_sun0 = (days + 4) % 7;
        };
        returns = rw er (
            casts (epoch_year + n) (1 + mo) (d + 1) (d + 1) (rem / 3600) (rem % 3600 / 60)
              (rem % 60) days refl yl hy (omega arith) dl th tm ts);
        valid = record {
          year_in = (omega arith, yl);
          month_in = (omega arith, hy);
          day_in = (omega arith, omega (arith, hm));
          hour_in = th;
          min_in = tm;
          sec_in = ts;
        };
        epoch_is =
            unfold epoch_calendar_from_ymdhms in
            rw (no_offset _, nested) (ap pos (omega (arith, te)));
      }
    where
      same :
          (n mo d : ℕ)
          → add_years epoch_year
              (epoch_year + n - epoch_year)
              (add_months (epoch_year + n) 1 (1 + mo - 1) (d + 1 - 1))
            ≡ add_years epoch_year n (add_months (epoch_year + n) 1 mo d)
      same n mo d = rw (minus n, back mo, back' d) refl
        where
          minus : (n : ℕ) → epoch_year + n - epoch_year ≡ n
          minus n = omega arith

          back : (n : ℕ) → 1 + n - 1 ≡ n
          back n = omega arith

          back' : (n : ℕ) → n + 1 - 1 ≡ n
          back' n = omega arith

  finish_years-Answers :
      (r : Option (ℕ × ℕ))
      → YearFound epoch_year days r
      → Answers (days * 86400 + rem) (finish_years rem ((days + 4) % 7) r)
  finish_years-Answers r yf =
      let y = epoch_year + yf.years in
      let mf : MonthFound y 1 yf.rest (take_months 12 y 1 yf.rest) =
        take_months-MonthFound 12 y 1 yf.rest refl (omega (arith, twelve_months y, yf.within)) in
      rw (yf.returns) (
        finish_months-Answers yf.years mf.months mf.rest mf.within mf.in_year
          (rw (← mf.adds_up) yf.adds_up) (take_months 12 y 1 yf.rest) mf.returns)

unsplit : {a b : ℕ} {r : Option Civil} → a ≡ b → Answers a r → Answers b r
unsplit {r} e a = record {
  civil = a.civil;
  returns = a.returns;
  valid = a.valid;
  epoch_is = a.epoch_is ∙ ap pos e;
}

pub from_epoch-Answers :
    (epoch : ℕ) → epoch < 2_000_000_000_000 → Answers epoch (epoch_calendar_from_epoch (pos epoch))
unfolding epoch_calendar_from_epoch
from_epoch-Answers epoch h =
    let (hd, hr, e) = split epoch h in
    unsplit e (
      finish_years-Answers (epoch / 86400) (epoch % 86400) hd hr
        (take_years (suc (epoch / 86400)) epoch_year (epoch / 86400))
        (take_years-YearFound (suc (epoch / 86400)) epoch_year (epoch / 86400) (omega arith)))
  where
    split :
        (epoch : ℕ)
        → epoch < 2_000_000_000_000
        → (epoch / 86400 ≤ 23_148_148)
          × (epoch % 86400 < 86400)
          × (epoch / 86400 * 86400 + epoch % 86400 ≡ epoch)
    split epoch h = omega arith
