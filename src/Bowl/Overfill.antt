-- ===== src/Bowl/Overfill.antt =====
-- When a scheduled feed is skipped because the bowl is full.
use xiaomi_feeder_iv.Dispense.Settle.{weight_dg_to_g_round}
use xiaomi_feeder_iv.Dispense.Start.{dispense_submit_grams}
use xiaomi_feeder_iv.Common.{
  leb, if◌then◌else◌, Bool-cases, if_true, if_false, if_both, ℕ, ◌+◌, ◌*◌, ◌≤◌, ◌≡◌, refl, sym, ap,
  ◌∙◌, inl, inr, Bool, true, false, not, ◌&&◌, ◌||◌, Option, none, some, List, arith,
}
use xiaomi_feeder_iv.Common.Int.{ℤ, pos, negsuc, sub_ℕ, ◌+ℤ◌, ltb_ℤ, leb_ℤ}
use xiaomi_feeder_iv.Common.Port.{
  PortErr, port_ok, invalid_arg, not_found, io_error, not_supported, port_busy,
}
use xiaomi_feeder_iv.Tare.{
  CalStatus, cal_idle, cal_capturing_span, cal_success, cal_uncalibrated,
  weigh_bowl_missing_threshold_dg,
}
use xiaomi_feeder_iv.Dispense.{Feeder, from_schedule}
use xiaomi_feeder_iv.Schedule.Poll.{fire_skipped_full}
use xiaomi_feeder_iv.Feed.{
  key_overfill_threshold_g, FeedPort, loaded, or_default, feed_config_clamp_overfill_threshold,
  parse_threshold, feed_config_overfill_enabled_get, feed_config_overfill_threshold_load,
  feed_config_overfill_threshold_g_get,
}
use xiaomi_feeder_iv.Bowl.{
  weight_dg_to_display_g, bowl_mass_sample_plausible, bowl_mass_bowl_present, is_success,
  bowl_mass_present_dg, WeightState, is_done, app_bowl_dg_snapshot, in_grams, known_g,
  feed_bowl_known_g, at_least, fired_as, feed_overfill_should_skip_schedule, feed_schedule_fire,
}

-- The threshold is one that may be set, whatever the port answers.
clamp-bounds :
    (n : ℕ)
    → (30 ≤ feed_config_clamp_overfill_threshold n) × (feed_config_clamp_overfill_threshold n ≤ 100)
unfolding feed_config_clamp_overfill_threshold
clamp-bounds n = (ground arith, ground arith)

abbrev InBounds : ℕ → Type 0
InBounds t = (30 ≤ t) × (t ≤ 100)

loaded-InBounds : (r : PortErr × List ℕ) → InBounds (or_default 50 (loaded 50 parse_threshold r))
unfolding parse_threshold
loaded-InBounds (port_ok, buf) = clamp-bounds _
loaded-InBounds (not_found, buf) = (omega arith, omega arith)
loaded-InBounds (invalid_arg, buf) = (omega arith, omega arith)
loaded-InBounds (io_error, buf) = (omega arith, omega arith)
loaded-InBounds (not_supported, buf) = (omega arith, omega arith)
loaded-InBounds (port_busy, buf) = (omega arith, omega arith)

pub threshold_g_get-InBounds :
    {S : Type 0} (port : Option (FeedPort S)) (store : S)
    → InBounds (feed_config_overfill_threshold_g_get port store)
unfolding feed_config_overfill_threshold_g_get feed_config_overfill_threshold_load
threshold_g_get-InBounds none store = (omega arith, omega arith)
threshold_g_get-InBounds (some port) store =
    loaded-InBounds (port.read key_overfill_threshold_g 8 store)

-- Rounded to grams, a weight reaches the threshold from half a gram below it on.
display-reaches :
    (t n : ℕ) → InBounds t → leb t (weight_dg_to_display_g (pos n)) ≡ leb (10 * t) (n + 5)
unfolding weight_dg_to_display_g weight_dg_to_g_round ◌+ℤ◌
display-reaches t n b = ground (arith, b)

-- A bowl that is full, without the rounding.
unfoldable pub is_full : CalStatus → WeightState → ℕ → Bool
is_full cal s threshold_g =
    is_done s.boot
    && (is_success cal
        && s.bowl_valid
        && (leb_ℤ s.bowl_dg (pos 50000) && leb_ℤ (pos (10 * threshold_g)) (s.bowl_dg +ℤ pos 5)))

module _ (t : ℕ) (b : InBounds t) where
  abbrev reaches : ℤ → Bool
  reaches dg = leb_ℤ dg (pos 50000) && leb_ℤ (pos (10 * t)) (dg +ℤ pos 5)

  presented :
      (dg : ℤ) → at_least (in_grams (bowl_mass_present_dg cal_success true dg)) t ≡ reaches dg
  unfolding bowl_mass_present_dg bowl_mass_bowl_present bowl_mass_sample_plausible ◌+ℤ◌
  presented (pos n) =
      let bad =
        not (leb_ℤ (sub_ℕ 0 weigh_bowl_missing_threshold_dg) (pos n))
        || not (leb_ℤ (pos n) (pos 50000) && leb_ℤ (sub_ℕ 0 1000) (pos n)) in
      let shown = if ltb_ℤ (pos n) (pos 0) then pos 0 else pos n in
      if_both (λ o. at_least (in_grams o) t ≡ reaches (pos n)) bad none (some shown)
        (λ e. ground (arith, e))
        (λ e.
          ap (λ x. leb t (weight_dg_to_display_g x)) (if_false (pos 0) (pos n) (ground arith))
          ∙ display-reaches t n b
          ∙ ground (arith, e))
  presented (negsuc n) =
      let bad =
        not (leb_ℤ (sub_ℕ 0 weigh_bowl_missing_threshold_dg) (negsuc n))
        || not (leb_ℤ (negsuc n) (pos 50000) && leb_ℤ (sub_ℕ 0 1000) (negsuc n)) in
      let shown = if ltb_ℤ (negsuc n) (pos 0) then pos 0 else negsuc n in
      let low : reaches (negsuc n) ≡ false = ground (arith, b) in
      if_both (λ o. at_least (in_grams o) t ≡ reaches (negsuc n)) bad none (some shown)
        (λ e. sym low)
        (λ e.
          ap (λ x. leb t (weight_dg_to_display_g x)) (if_true (pos 0) (negsuc n) (ground arith))
          ∙ display-reaches t 0 b
          ∙ ground (arith, b)
          ∙ sym low)

  known-reaches :
      (cal : CalStatus) (valid : Bool) (age : ℕ) (dg : ℤ)
      → at_least (known_g cal (some (record { valid = valid; sample_age_ms = age; dg = dg }))) t
        ≡ (is_success cal && valid && reaches dg)
  unfolding bowl_mass_present_dg
  known-reaches cal_success true age dg = presented dg
  known-reaches cal_success false age dg = refl
  known-reaches cal_idle valid age dg = refl
  known-reaches cal_capturing_span valid age dg = refl
  known-reaches cal_uncalibrated valid age dg = refl

known-is_full :
    (now : ℕ) (cal : CalStatus) (s : WeightState) (t : ℕ)
    → InBounds t
    → at_least (feed_bowl_known_g now cal s) t ≡ is_full cal s t
unfolding feed_bowl_known_g app_bowl_dg_snapshot is_full
known-is_full now cal s t b = elim (Bool-cases (is_done s.boot)) [
  | inl e ↦ rw e (known-reaches t b cal s.bowl_valid 0 s.bowl_dg)
  | inr e ↦ rw e refl
]

-- At fire time a schedule's feed is skipped exactly if protection is on, the weight boot is over, the
-- scale is calibrated, its last sample is valid, at most 5 kg, and reaches the threshold less half a
-- gram; nothing is submitted and the supervisor stays then. Any other feed is submitted as it is.
pub schedule_fire-is_full :
    {S : Type 0} (port : Option (FeedPort S)) (store : S) (g now : ℕ) (cal : CalStatus)
    (s : WeightState) (motor_active posts : Bool) (f : Feeder)
    → let r = dispense_submit_grams g from_schedule motor_active posts f in
      feed_schedule_fire port store g now cal s motor_active posts f ≡ (
        if feed_config_overfill_enabled_get port store
          && is_full cal s (feed_config_overfill_threshold_g_get port store)
        then (fire_skipped_full, none, f)
        else (fired_as r.0, r.1, r.2))
unfolding feed_schedule_fire feed_overfill_should_skip_schedule
schedule_fire-is_full port store g now cal s motor_active posts f =
    let t = feed_config_overfill_threshold_g_get port store in
    let full : at_least (feed_bowl_known_g now cal s) t ≡ is_full cal s t =
      known-is_full now cal s t (threshold_g_get-InBounds port store) in
    elim (Bool-cases (feed_config_overfill_enabled_get port store)) [
      | inl e ↦ rw (e, full) refl
      | inr e ↦ rw e refl
    ]
