-- ===== src/Tare.antt =====
-- The drift compensation of the bowl's scale, firmware/src/auto_tare.c, with firmware/src/bowl_error.c.
-- Weights are integers, in tenths of a gram; the streak is a byte. Whether a dispense runs
-- (feeder_runtime.c) is an argument.
pub mod Drift
use xiaomi_feeder_iv.Common.{ltb, leb, if◌then◌else◌, ℕ, ◌+◌, Bool, true, false, not, ◌&&◌, ◌||◌}
use xiaomi_feeder_iv.Common.Int.{ℤ, pos, sub_ℕ, ◌+ℤ◌, ◌-ℤ◌, ltb_ℤ, leb_ℤ}

pub data BowlError : Type 0 where
  bowl_ok cal_incomplete cal_span_pending bowl_missing : BowlError

-- `weight_cal_status_t`.
pub data CalStatus : Type 0 where
  cal_idle cal_capturing_span cal_success cal_uncalibrated : CalStatus

abbrev pub weigh_bowl_missing_threshold_dg : ℕ
weigh_bowl_missing_threshold_dg = 870

unfoldable pub bowl_error_eval : CalStatus → Bool → ℤ → BowlError
bowl_error_eval cal_uncalibrated sample_valid food_dg = cal_incomplete
bowl_error_eval cal_idle sample_valid food_dg = cal_incomplete
bowl_error_eval cal_capturing_span sample_valid food_dg = cal_span_pending
bowl_error_eval cal_success sample_valid food_dg =
    if sample_valid && ltb_ℤ food_dg (sub_ℕ 0 weigh_bowl_missing_threshold_dg)
    then bowl_missing
    else bowl_ok

unfoldable pub bowl_error_is_active : BowlError → Bool
bowl_error_is_active bowl_ok = false
bowl_error_is_active cal_incomplete = true
bowl_error_is_active cal_span_pending = true
bowl_error_is_active bowl_missing = true

abbrev pub auto_tare_drift_rate_max_dg : ℕ
auto_tare_drift_rate_max_dg = 1

abbrev pub auto_tare_initial_stable_streak : ℕ
auto_tare_initial_stable_streak = 4

pub record Tare : Type 0 where
  pub stable_dg : ℤ
  pub drift_offset_dg : ℤ
  pub stable_valid : Bool
  pub pending_calibration : Bool
  pub prev_raw_dg : ℤ
  pub prev_raw_valid : Bool
  pub quiet_streak : ℕ
  pub bowl_err_sync_known : Bool
  pub last_bowl_err_sync : BowlError

unfoldable pub auto_tare_abs_delta : ℤ → ℤ → ℤ
auto_tare_abs_delta a b = let d = a -ℤ b in if ltb_ℤ d (pos 0) then pos 0 -ℤ d else d

unfoldable pub auto_tare_sample_quiet : ℤ → Tare → Bool
unfolding auto_tare_abs_delta
auto_tare_sample_quiet raw_dg s =
    if not s.prev_raw_valid
    then true
    else leb_ℤ (auto_tare_abs_delta raw_dg s.prev_raw_dg) (pos auto_tare_drift_rate_max_dg)

unfoldable pub auto_tare_track_raw : ℤ → Tare → Tare
auto_tare_track_raw raw_dg s = record s { prev_raw_dg = raw_dg; prev_raw_valid = true }

unfoldable pub auto_tare_reset_tracking : Tare → Tare
auto_tare_reset_tracking s = record s { prev_raw_valid = false; quiet_streak = 0 }

unfoldable pub auto_tare_init : Tare → Tare
unfolding auto_tare_reset_tracking
auto_tare_init s = auto_tare_reset_tracking (record s {
  stable_dg = pos 0;
  drift_offset_dg = pos 0;
  stable_valid = false;
  pending_calibration = true;
  bowl_err_sync_known = false;
  last_bowl_err_sync = bowl_ok;
})

unfoldable pub auto_tare_on_bowl_removed : Tare → Tare
unfolding auto_tare_reset_tracking
auto_tare_on_bowl_removed s =
    auto_tare_reset_tracking
      (record s { stable_valid = false; pending_calibration = true; drift_offset_dg = pos 0 })

unfoldable pub auto_tare_on_bowl_present : Tare → Tare
unfolding auto_tare_reset_tracking
auto_tare_on_bowl_present s = auto_tare_reset_tracking s

unfoldable pub auto_tare_sync_bowl_error : BowlError → Tare → Tare
unfolding auto_tare_on_bowl_removed auto_tare_on_bowl_present bowl_error_is_active
auto_tare_sync_bowl_error bowl_err s =
    let is_active = bowl_error_is_active bowl_err in
    let was_active = bowl_error_is_active s.last_bowl_err_sync in
    if not s.bowl_err_sync_known
    then (let t = record s { bowl_err_sync_known = true; last_bowl_err_sync = bowl_err } in
        if is_active then auto_tare_on_bowl_removed t else t)
    else record (if not was_active && is_active
        then auto_tare_on_bowl_removed s
        else (if was_active && not is_active then auto_tare_on_bowl_present s else s)) {
          last_bowl_err_sync = bowl_err;
        }

unfoldable pub auto_tare_anchor : ℤ → Tare → Tare
unfolding auto_tare_reset_tracking
auto_tare_anchor raw_dg s = auto_tare_reset_tracking (record s {
  stable_dg = raw_dg;
  drift_offset_dg = pos 0;
  stable_valid = true;
  pending_calibration = false;
})

-- The branch that waits for the first stable weight.
unfoldable pub calibrate_sample : ℤ → Tare → Tare
unfolding auto_tare_anchor auto_tare_track_raw
calibrate_sample raw_dg s =
    if auto_tare_sample_quiet raw_dg s
    then (let streak = if ltb s.quiet_streak 255 then s.quiet_streak + 1 else s.quiet_streak in
        if leb auto_tare_initial_stable_streak streak
        then auto_tare_anchor raw_dg (record s { quiet_streak = streak })
        else auto_tare_track_raw raw_dg (record s { quiet_streak = streak }))
    else auto_tare_track_raw raw_dg (record s { quiet_streak = 0 })

unfoldable pub drift_sample : ℤ → Tare → Tare
unfolding auto_tare_track_raw
drift_sample raw_dg s = auto_tare_track_raw raw_dg (
    if s.prev_raw_valid && auto_tare_sample_quiet raw_dg s
    then record s { drift_offset_dg = s.stable_dg -ℤ raw_dg }
    else s)

unfoldable pub auto_tare_idle_sample : Bool → ℤ → Bool → Tare → Tare
unfolding auto_tare_reset_tracking auto_tare_track_raw
auto_tare_idle_sample dispense_active raw_dg sample_valid s =
    if dispense_active
    then s
    else (if not sample_valid
        then auto_tare_reset_tracking s
        else (if s.pending_calibration
            then calibrate_sample raw_dg s
            else (if not s.stable_valid
                then auto_tare_track_raw raw_dg s
                else drift_sample raw_dg s)))

unfoldable pub auto_tare_present_dg : ℤ → Bool → Tare → ℤ
auto_tare_present_dg raw_dg sample_valid s =
    if not sample_valid || not s.stable_valid || s.pending_calibration
    then raw_dg
    else raw_dg +ℤ s.drift_offset_dg
