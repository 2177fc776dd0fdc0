-- ===== src/Bowl.antt =====
-- The food in the bowl as it is shown and as it stops a feed: firmware/src/bowl_mass_present.c,
-- weight_units.c (its rounding) and feed_bowl.c, and the weight state of the application,
-- firmware/src/app.c. Weights are tenths of a gram; the scale's port is an argument.
pub mod Sample
pub mod Overfill
use xiaomi_feeder_iv.Common.{
  leb, ◌==◌, if◌then◌else◌, u16, u32_max, ℕ, ◌-◌, Bool, true, false, not, ◌&&◌, ◌||◌, Option, none,
  some,
}
use xiaomi_feeder_iv.Common.Int.{ℤ, pos, pos_part, sub_ℕ, ◌+ℤ◌, ◌-ℤ◌, ltb_ℤ, leb_ℤ, tdiv}
use xiaomi_feeder_iv.Tare.{CalStatus, cal_success, weigh_bowl_missing_threshold_dg}
use xiaomi_feeder_iv.Dispense.{
  BowlSnapshot, SubmitResult, submit_ok, submit_busy, submit_invalid, Request, Feeder,
  from_schedule,
}
use xiaomi_feeder_iv.Dispense.Settle.{weight_dg_to_g_round}
use xiaomi_feeder_iv.Dispense.Start.{dispense_submit_grams}
use xiaomi_feeder_iv.Schedule.Poll.{
  FireResult, fire_ok, fire_busy, fire_rejected, fire_skipped_full,
}
use xiaomi_feeder_iv.Feed.{
  FeedPort, feed_config_overfill_enabled_get, feed_config_overfill_threshold_g_get,
}

abbrev pub weight_display_max_g : ℕ
weight_display_max_g = 999

unfoldable pub weight_dg_to_display_g : ℤ → ℕ
weight_dg_to_display_g dg =
    let rounded = weight_dg_to_g_round dg in
    if ltb_ℤ rounded (pos 0)
    then 0
    else if ltb_ℤ (pos weight_display_max_g) rounded
    then weight_display_max_g
    else u16 (pos_part rounded)

unfoldable pub bowl_mass_sample_plausible : ℤ → Bool
bowl_mass_sample_plausible food_dg = leb_ℤ food_dg (pos 50000) && leb_ℤ (sub_ℕ 0 1000) food_dg

unfoldable pub bowl_mass_bowl_present : ℤ → Bool
bowl_mass_bowl_present food_dg = leb_ℤ (sub_ℕ 0 weigh_bowl_missing_threshold_dg) food_dg

abbrev pub is_success : CalStatus → Bool
is_success cal_success = true
is_success _ = false

-- The weight, where it is known.
unfoldable pub bowl_mass_present_dg : CalStatus → Bool → ℤ → Option ℤ
bowl_mass_present_dg cal sample_valid food_dg =
    if not (is_success cal)
      || not sample_valid
      || not (bowl_mass_bowl_present food_dg)
      || not (bowl_mass_sample_plausible food_dg)
    then none
    else some (if ltb_ℤ food_dg (pos 0) then pos 0 else food_dg)

-- `bowl_display_digits_t`, the grams with the number that is shown.
pub data Digits : Type 0 where
  digits_dash digits_underflow digits_blank : Digits
  digits_grams : ℕ → Digits

unfoldable pub bowl_mass_display_digits : CalStatus → Bool → ℤ → Digits
bowl_mass_display_digits cal sample_valid food_dg =
    if not (is_success cal)
    then digits_dash
    else if not sample_valid || not (bowl_mass_sample_plausible food_dg)
    then digits_blank
    else if not (bowl_mass_bowl_present food_dg)
    then digits_underflow
    else digits_grams (weight_dg_to_display_g food_dg)

pub data WeightBoot : Type 0 where
  boot_pending boot_settling boot_done : WeightBoot

-- The weight variables of app.c.
pub record WeightState : Type 0 where
  pub boot : WeightBoot
  pub bowl_dg : ℤ
  pub bowl_valid : Bool
  pub last_sample_ms : ℕ
  pub resample_after_dispense : Bool

abbrev pub is_done : WeightBoot → Bool
is_done boot_done = true
is_done _ = false

-- `app_bowl_dg_snapshot`, `none` for false.
unfoldable pub app_bowl_dg_snapshot : ℕ → WeightState → Option BowlSnapshot
app_bowl_dg_snapshot now_ms s =
    if not (is_done s.boot)
    then none
    else some (record {
      valid = s.bowl_valid;
      sample_age_ms =
          if not s.bowl_valid || s.last_sample_ms == 0
          then u32_max
          else (if leb s.last_sample_ms now_ms then now_ms - s.last_sample_ms else 0);
      dg = s.bowl_dg;
    })

abbrev pub in_grams : Option ℤ → Option ℕ
in_grams none = none
in_grams (some present_dg) = some (weight_dg_to_display_g present_dg)

abbrev pub known_g : CalStatus → Option BowlSnapshot → Option ℕ
known_g cal none = none
known_g cal (some snap) = in_grams (bowl_mass_present_dg cal snap.valid snap.dg)

-- `none` is the answer false; `cal` is that of the scale's port, or uncalibrated.
unfoldable pub feed_bowl_known_g : ℕ → CalStatus → WeightState → Option ℕ
feed_bowl_known_g now_ms cal s = known_g cal (app_bowl_dg_snapshot now_ms s)

abbrev pub at_least : Option ℕ → ℕ → Bool
at_least none threshold = false
at_least (some bowl_g) threshold = leb threshold bowl_g

abbrev pub fired_as : SubmitResult → FireResult
fired_as submit_ok = fire_ok
fired_as submit_busy = fire_busy
fired_as _ = fire_rejected

module _ {S : Type 0} where
  unfoldable pub feed_overfill_should_skip_schedule :
      Option (FeedPort S) → S → ℕ → CalStatus → WeightState → Bool
  feed_overfill_should_skip_schedule port store now_ms cal s =
      if not (feed_config_overfill_enabled_get port store)
      then false
      else at_least (feed_bowl_known_g now_ms cal s)
          (feed_config_overfill_threshold_g_get port store)

  -- The result, the request that is posted, and the supervisor.
  unfoldable pub feed_schedule_fire :
      Option (FeedPort S)
      → S
      → ℕ
      → ℕ
      → CalStatus
      → WeightState
      → Bool
      → Bool
      → Feeder
      → FireResult × Option Request × Feeder
  feed_schedule_fire port store g now_ms cal s motor_active posts f =
      if feed_overfill_should_skip_schedule port store now_ms cal s
      then (fire_skipped_full, none, f)
      else (let r = dispense_submit_grams g from_schedule motor_active posts f in
          (fired_as r.0, r.1, r.2))
