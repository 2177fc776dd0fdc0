-- ===== src/Motor/Antijam.antt =====
-- The start of a run and the recovery from a jam, firmware/src/motor_ctrl.c.
use xiaomi_feeder_iv.Common.{
  ltb, leb, if◌then◌else◌, u32, ℕ, ◌+◌, Bool, true, false, not, Option, none, some,
}
use xiaomi_feeder_iv.Motor.{
  jam_sustained_ma, anti_jam_reverse_ms, anti_jam_wiggle_ms, anti_jam_max_retries, CmdKind,
  cmd_park, Phase, run_burst, run_park, run_bench, antijam_rev, antijam_wiggle_fwd,
  antijam_wiggle_rev, JamReason, Motor, Inputs, motor_driver_start_ph, motor_driver_stop,
}
use xiaomi_feeder_iv.Motor.Session.{motor_ctrl_finish_fault}

-- The end of `motor_ctrl_begin_antijam` and of the wiggles: a phase that lasts `ms`, whether or
-- not the motor starts.
unfoldable pub timed_phase : Phase → ℕ → Inputs → Motor → Motor
timed_phase phase ms i m = record ((motor_driver_start_ph i (record m { phase = phase })).1) {
  phase_end_tick = u32 (i.start_tick + i.ticks ms);
}

unfoldable pub motor_ctrl_begin_antijam : JamReason → Inputs → Motor → Motor
motor_ctrl_begin_antijam reason i m =
    let stopped = record ((motor_driver_stop i m).1) {
      sustained_over_ms = 0;
      instant_jam = false;
    } in
    if leb anti_jam_max_retries stopped.antijam_retries
    then motor_ctrl_finish_fault i stopped
    else timed_phase antijam_rev anti_jam_reverse_ms i
        (record stopped { last_jam_reason = reason; antijam_retries = stopped.antijam_retries + 1 })

unfoldable pub reset_run : Inputs → Motor → Motor
reset_run i m = record m {
  pulses = 0;
  prev_beam_open = false;
  sustained_over_ms = 0;
  instant_jam = false;
  io_fail_streak = 0;
  last_beam_poll_tick = 0;
  index_sample_after_tick = 0;
  en_start_tick = i.start_tick;
}

unfoldable pub first_beam_seen : Option Bool → Motor → Motor
first_beam_seen none m = m
first_beam_seen (some beam_open) m = record m { prev_beam_open = beam_open }

unfoldable pub run_forward : Bool → Inputs → Motor → Motor
run_forward park i m =
    let (ok, started) = motor_driver_start_ph i m in
    if not ok
    then motor_ctrl_finish_fault i started
    else record started { phase = if park then run_park else run_burst }

unfoldable pub motor_ctrl_begin_run : Bool → Inputs → Motor → Motor
motor_ctrl_begin_run park i m =
    if not i.session_begin
    then motor_ctrl_finish_fault i (reset_run i m)
    else run_forward park i (first_beam_seen i.first_beam (reset_run i m))

-- `reverse` chooses the level of the direction pin alone.
unfoldable pub motor_ctrl_begin_bench_run : Inputs → Motor → Motor
motor_ctrl_begin_bench_run i m =
    let (ok, started) = motor_driver_start_ph i m in
    if not ok then motor_ctrl_finish_fault i started else record started {
      phase = run_bench;
      phase_end_tick = u32 (i.start_tick + i.ticks m.active_cmd.timeout_ms);
    }

abbrev pub is_park_cmd : CmdKind → Bool
is_park_cmd cmd_park = true
is_park_cmd _ = false

unfoldable pub motor_ctrl_retry_active_cmd : Inputs → Motor → Motor
motor_ctrl_retry_active_cmd i m =
    if is_park_cmd m.active_cmd.kind
    then motor_ctrl_begin_run true i m
    else motor_ctrl_begin_run false i m

-- `motor_ctrl_is_jam_load` of the sample, if there is one.
unfoldable pub still_jammed : Option ℕ → Bool
still_jammed none = false
still_jammed (some ma) = ltb jam_sustained_ma ma

unfoldable pub next_wiggle : Phase → Inputs → Motor → Motor
next_wiggle antijam_rev i m = timed_phase antijam_wiggle_fwd anti_jam_wiggle_ms i m
next_wiggle antijam_wiggle_fwd i m = timed_phase antijam_wiggle_rev anti_jam_wiggle_ms i m
next_wiggle _ i m = motor_ctrl_begin_antijam m.last_jam_reason i m

unfoldable pub motor_ctrl_after_antijam_step : Inputs → Motor → Motor
motor_ctrl_after_antijam_step i m =
    let stopped = (motor_driver_stop i m).1 in
    if not (still_jammed i.adc_step)
    then motor_ctrl_retry_active_cmd i stopped
    else next_wiggle stopped.phase i stopped
