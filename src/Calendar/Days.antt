-- ===== src/Calendar/Days.antt =====
-- Counting days by years and by months, and taking them off again.
use native.Mathlib.Nat.{add-zero, zero-add, suc-add, le_refl}
use xiaomi_feeder_iv.Common.{
  ℕ, zero, suc, ◌+◌, ◌≤◌, ◌<◌, ◌≡◌, refl, ap, ◌∙◌, some, arith, lt→ltb, ltb, ◌-◌, false,
}
use xiaomi_feeder_iv.Calendar.{
  epoch_calendar_days_in_month, year_days, add_years, add_months, take_years, take_months,
}

pub later : (m n : ℕ) → m + 1 + n ≡ m + suc n
later m n = omega arith

not_below : (a b : ℕ) → ltb (a + b) b ≡ false
not_below a b = ground arith

add_sub : (a b : ℕ) → a + b - b ≡ a
add_sub a b = omega arith

pub add_years_add : (y n a b : ℕ) → add_years y n (a + b) ≡ add_years y n a + b
unfolding add_years
add_years_add y zero a b = refl
add_years_add y (suc n) a b =
    ap (add_years (y + 1) n) (omega arith) ∙ add_years_add (y + 1) n (a + year_days y) b

pub add_months_add : (y m n a b : ℕ) → add_months y m n (a + b) ≡ add_months y m n a + b
unfolding add_months
add_months_add y m zero a b = refl
add_months_add y m (suc n) a b =
    ap (add_months y (m + 1) n) (omega arith)
    ∙ add_months_add y (m + 1) n (a + epoch_calendar_days_in_month y m) b

pub add_years-from : (y n a : ℕ) → add_years y n a ≡ add_years y n 0 + a
add_years-from y n a = ap (add_years y n) (omega arith) ∙ add_years_add y n 0 a

pub add_months-from : (y m n a : ℕ) → add_months y m n a ≡ add_months y m n 0 + a
add_months-from y m n a = ap (add_months y m n) (omega arith) ∙ add_months_add y m n 0 a

pub add_months-step :
    (y m n : ℕ)
    → add_months y m (suc n) 0 ≡ add_months y (m + 1) n 0 + epoch_calendar_days_in_month y m
add_months-step y m n =
    unfold add_months in
    ap (add_months y (m + 1) n) (omega arith)
    ∙ add_months-from y (m + 1) n (epoch_calendar_days_in_month y m)

-- One more month, at the end.
pub add_months-last :
    (y m n : ℕ)
    → add_months y m (suc n) 0 ≡ add_months y m n 0 + epoch_calendar_days_in_month y (m + n)
add_months-last y m zero =
    unfold add_months in omega (arith, ap (epoch_calendar_days_in_month y) (add-zero m))
add_months-last y m (suc n) =
    add_months-step y m (suc n)
    ∙ omega (
      arith,
      add_months-last y (m + 1) n,
      add_months-step y m n,
      ap (epoch_calendar_days_in_month y) (later m n),
    )

pub add_months_mono : (y m n k : ℕ) → add_months y m n 0 ≤ add_months y m (k + n) 0
add_months_mono y m n zero = rw (zero-add n) (le_refl _)
add_months_mono y m n (suc k) =
    rw (suc-add k n) (omega (arith, add_months_mono y m n k, add_months-last y m (k + n)))

pub twelve_months : (y : ℕ) → add_months y 1 12 0 ≡ year_days y
unfolding add_months epoch_calendar_days_in_month year_days
twelve_months y = ground arith

-- Taking off what was added gives the year, or the month, and the days left over.
pub take_years-add :
    (n fuel y d : ℕ)
    → d < year_days (y + n)
    → n < fuel
    → take_years fuel y (add_years y n d) ≡ some (y + n, d)
unfolding take_years add_years
take_years-add n zero y d h k = absurd (omega arith)
take_years-add zero (suc fuel) y d h k = rw (add-zero y, lt→ltb d _ (rw (add-zero y) at h))
take_years-add (suc n) (suc fuel) y d h k =
    let shift : y + suc n ≡ y + 1 + n = omega arith in
    let rest = take_years-add n fuel (y + 1) d (rw shift at h) (omega arith) in
    rw
      (
        add_years_add (y + 1) n d (year_days y),
        not_below (add_years (y + 1) n d) (year_days y),
        add_sub (add_years (y + 1) n d) (year_days y),
        shift,
      )
      rest

pub take_months-add :
    (n fuel y m d : ℕ)
    → d < epoch_calendar_days_in_month y (m + n)
    → n < fuel
    → take_months fuel y m (add_months y m n d) ≡ some (m + n, d)
unfolding take_months add_months
take_months-add n zero y m d h k = absurd (omega arith)
take_months-add zero (suc fuel) y m d h k = rw (add-zero m, lt→ltb d _ (rw (add-zero m) at h))
take_months-add (suc n) (suc fuel) y m d h k =
    let shift : m + suc n ≡ m + 1 + n = omega arith in
    let rest = take_months-add n fuel y (m + 1) d (rw shift at h) (omega arith) in
    rw
      (
        add_months_add y (m + 1) n d (epoch_calendar_days_in_month y m),
        not_below (add_months y (m + 1) n d) (epoch_calendar_days_in_month y m),
        add_sub (add_months y (m + 1) n d) (epoch_calendar_days_in_month y m),
        shift,
      )
      rest
