-- ===== src/Zone/Year.antt =====
-- The year in which `utc_in_dst_window` looks for the transitions.
use xiaomi_feeder_iv.Common.{
  lt→ltb, ℕ, zero, suc, ◌+◌, ◌*◌, ◌≤◌, ◌<◌, ◌≡◌, true, false, arith, if_both, ltb, ltb→ge,
  Bool-cases, ◌-◌, refl, sym, ap, ◌∙◌, inl, inr, some,
}
use xiaomi_feeder_iv.Common.Int.{pos, ltb_ℤ}
use xiaomi_feeder_iv.Calendar.{
  epoch_year, epoch_calendar_from_ymdhms, Civil, epoch_calendar_from_epoch,
}
use xiaomi_feeder_iv.Calendar.NewYear.{
  days_before, new_year, days_before_mono, days_before_2100, from_epoch-year,
}
use xiaomi_feeder_iv.Zone.{stop_year, window_year}

begins_later :
    (n i : ℕ)
    → n < days_before i * 86400
    → ltb_ℤ (pos n) (epoch_calendar_from_ymdhms (epoch_year + i) 1 1 0 0 0 (pos 0)) ≡ true
begins_later n i h = rw (new_year i) (lt→ltb _ _ (omega (arith, h)))

begun :
    (n i : ℕ)
    → days_before i * 86400 ≤ n
    → ltb_ℤ (pos n) (epoch_calendar_from_ymdhms (epoch_year + i) 1 1 0 0 0 (pos 0)) ≡ false
begun n i h = rw (new_year i) (ground arith)

-- From a year that is not past the next one, with enough years to go, the loop stops at the next.
module _ (n k : ℕ) (lo : days_before k * 86400 ≤ n) (hi : n < days_before (k + 1) * 86400) where
  at_next :
      (i : ℕ)
      → i ≤ k + 1
      → ltb_ℤ (pos n) (epoch_calendar_from_ymdhms (epoch_year + i) 1 1 0 0 0 (pos 0)) ≡ true
      → i ≡ k + 1
  at_next i a t = elim (Bool-cases (ltb i (k + 1))) [
    | inl l ↦ absurd (cc (t, begun n i (omega (arith, lo, days_before_mono i k (ground arith)))))
    | inr g ↦ omega (arith, a, ltb→ge _ _ g)
  ]

  not_past :
      (i : ℕ)
      → i ≤ k + 1
      → ltb_ℤ (pos n) (epoch_calendar_from_ymdhms (epoch_year + i) 1 1 0 0 0 (pos 0)) ≡ false
      → i ≤ k
  not_past i a f = elim (Bool-cases (ltb i (k + 1))) [
    | inl l ↦ ground arith
    | inr g ↦
        absurd
          (cc (f, begins_later n i (omega (arith, hi, days_before_mono (k + 1) i (ltb→ge _ _ g)))))
  ]

  stop_year-next :
      (m i y : ℕ)
      → y ≡ epoch_year + i
      → i ≤ k + 1
      → k + 1 ≤ i + m
      → stop_year m y (pos n) ≡ epoch_year + (k + 1)
  unfolding stop_year
  stop_year-next zero i y e a b = omega (arith, e, a, b)
  stop_year-next (suc m) i y e a b =
      let jan1 = epoch_calendar_from_ymdhms y 1 1 0 0 0 (pos 0) in
      let rest = stop_year m (y + 1) (pos n) in
      if_both (λ (x : ℕ). x ≡ epoch_year + (k + 1)) (ltb_ℤ (pos n) jan1) y rest
        (λ t. omega (
          arith,
          e,
          at_next i a (
              ap (λ (z : ℕ). ltb_ℤ (pos n) (epoch_calendar_from_ymdhms z 1 1 0 0 0 (pos 0))) (sym e)
              ∙ t),
        ))
        (λ f.
          stop_year-next m (i + 1) (y + 1) (omega (arith, e))
            (omega (
              arith,
              not_past i a (
                  ap (λ (z : ℕ). ltb_ℤ (pos n) (epoch_calendar_from_ymdhms z 1 1 0 0 0 (pos 0)))
                    (sym e)
                  ∙ f),
            ))
            (omega (arith, b)))

-- The years that the loop covers hold the instants before 2100.
year-lt :
    (n y : ℕ)
    → n < 4_102_444_800
    → epoch_year ≤ y
    → days_before (y - epoch_year) * 86400 ≤ n
    → y < 2100
year-lt n y h l e = elim (Bool-cases (ltb y 2100)) [
  | inl t ↦ ground arith
  | inr f ↦
      absurd (
        omega (arith, h, e, days_before_2100, days_before_mono 130 (y - epoch_year) (ground arith)))
]

-- From 1970 until the end of 2099, the year whose transitions `utc_in_dst_window` looks at is
-- the year of the date that `epoch_calendar_from_epoch` gives for the instant.
window_year-from_epoch :
    (n : ℕ) (c : Civil)
    → n < 4_102_444_800
    → epoch_calendar_from_epoch (pos n) ≡ some c
    → window_year (pos n) ≡ c.year
unfolding window_year
window_year-from_epoch n c h e =
    let (lo, from, to) = from_epoch-year n c (omega (arith, h)) e in
    let k = c.year - epoch_year in
    let small = year-lt n c.year h lo from in
    let next : stop_year 130 epoch_year (pos n) ≡ epoch_year + (k + 1) =
      stop_year-next n k from to 130 0 epoch_year refl (omega arith) (omega (arith, small)) in
    ground (arith, next, lo)
