-- ===== src/Bowl/Sample.antt =====
-- The operations on the weight state, firmware/src/app.c. The scale's port is what its calls answer,
-- `none` for a call that the port does not have; boot_begin, whose answer is dropped, and the display
-- and the broker, which follow the state, are left out.
pub mod Rate
use xiaomi_feeder_iv.Common.{
  ltb, ◌==◌, if◌then◌else◌, sub32, ℕ, Bool, true, false, not, ◌&&◌, Option, none, some,
}
use xiaomi_feeder_iv.Common.Int.{ℤ}
use xiaomi_feeder_iv.Common.Port.{PortErr, port_ok, io_error, port_busy}
use xiaomi_feeder_iv.Tare.{
  CalStatus, cal_uncalibrated, bowl_error_eval, Tare, auto_tare_sync_bowl_error,
  auto_tare_idle_sample,
}
use xiaomi_feeder_iv.Bowl.{WeightBoot, boot_pending, boot_settling, boot_done, WeightState, is_done}

abbrev pub app_weight_sample_ms : ℕ
app_weight_sample_ms = 500

-- A read acts on a state of its own, `W`, and answers an error and a weight.
pub record WeightPort (W : Type 0) : Type 0 where
  pub read_dg : Option (W → (PortErr × ℤ) × W)
  pub try_read_dg : Option (W → (PortErr × ℤ) × W)
  pub boot_poll : Option PortErr
  pub cal : CalStatus

unfoldable pub sampled : PortErr × ℤ → WeightState → WeightState
sampled (port_ok, dg) s = record s { bowl_dg = dg; bowl_valid = true }
sampled (port_busy, dg) s = s
sampled (_, dg) s = record s { bowl_valid = false }

module _ {W : Type 0} where
  abbrev pub sampled_if : Option (W → (PortErr × ℤ) × W) → WeightState → W → WeightState × W
  sampled_if none s w = (s, w)
  sampled_if (some read) s w = let (r, w') = read w in (sampled r s, w')

  -- The read that `app_weight_sample` chooses.
  abbrev pub chosen_read : Bool → WeightPort W → Option (W → (PortErr × ℤ) × W)
  chosen_read true p = elim p.try_read_dg [ none ↦ p.read_dg | some read ↦ some read ]
  chosen_read false p = p.read_dg

  unfoldable pub app_weight_sample :
      Bool → Option (WeightPort W) → WeightState → W → WeightState × W
  app_weight_sample idle_try none s w = (s, w)
  app_weight_sample idle_try (some p) s w = sampled_if (chosen_read idle_try p) s w

  abbrev pub cal_of : Option (WeightPort W) → CalStatus
  cal_of none = cal_uncalibrated
  cal_of (some p) = p.cal

  -- With the drift compensation, which no dispense holds up here.
  unfoldable pub app_weight_idle_tick :
      Option (WeightPort W) → WeightState × Tare → W → (WeightState × Tare) × W
  app_weight_idle_tick port (s, tare) w =
      let (s', w') = app_weight_sample true port s w in
      let err = bowl_error_eval (cal_of port) s'.bowl_valid s'.bowl_dg in
      let tare' =
        auto_tare_idle_sample false s'.bowl_dg s'.bowl_valid (auto_tare_sync_bowl_error err tare) in
      ((s', tare'), w')

  -- `busy` is whether a dispense or an update runs.
  unfoldable pub app_weight_idle_on_display_tick :
      Bool → ℕ → Option (WeightPort W) → WeightState × Tare → W → (WeightState × Tare) × W
  app_weight_idle_on_display_tick busy now_ms port (s, tare) w =
      if not (is_done s.boot)
      then ((s, tare), w)
      else if busy
      then ((s, tare), w)
      else if not (s.last_sample_ms == 0)
          && ltb (sub32 now_ms s.last_sample_ms) app_weight_sample_ms
      then ((s, tare), w)
      else app_weight_idle_tick port (record s { last_sample_ms = now_ms }, tare) w

unfoldable pub app_weight_notify_dispense_complete : WeightState → WeightState
app_weight_notify_dispense_complete s =
    if not (is_done s.boot) then s else record s { resample_after_dispense = true }

module _ {W : Type 0} where
  unfoldable pub app_weight_resample_after_dispense_if_needed :
      Option (WeightPort W) → WeightState → W → WeightState × W
  app_weight_resample_after_dispense_if_needed port s w =
      if not s.resample_after_dispense
      then (s, w)
      else app_weight_sample false port (record s { resample_after_dispense = false }) w

unfoldable pub app_bowl_dg_notify_read : ℤ → Bool → ℕ → WeightState → WeightState
app_bowl_dg_notify_read dg valid now_ms s = record s {
  bowl_dg = dg;
  bowl_valid = valid;
  last_sample_ms = now_ms;
}

module _ {W : Type 0} where
  abbrev pub poll_answer : Option (WeightPort W) → PortErr
  poll_answer none = io_error
  poll_answer (some p) = elim p.boot_poll [ none ↦ io_error | some err ↦ err ]

  unfoldable pub settled : PortErr → Option (WeightPort W) → WeightState → W → WeightState × W
  settled port_busy port s w = (s, w)
  settled port_ok port s w =
      let (s', w') = app_weight_sample false port s w in
      (record s' { last_sample_ms = 0; boot = boot_done }, w')
  settled _ port s w = (record s { boot = boot_done }, w)

  unfoldable pub advance_from :
      WeightBoot → Option (WeightPort W) → WeightState → W → WeightState × W
  advance_from boot_pending port s w = (record s { boot = boot_settling }, w)
  advance_from boot_settling port s w = settled (poll_answer port) port s w
  advance_from boot_done port s w = (s, w)

  unfoldable pub app_weight_boot_advance : Option (WeightPort W) → WeightState → W → WeightState × W
  app_weight_boot_advance port s w = advance_from s.boot port s w

unfoldable pub app_weight_boot_arm : WeightState → WeightState
app_weight_boot_arm s = record s { boot = boot_pending; bowl_valid = false }
