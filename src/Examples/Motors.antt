-- ===== src/Examples/Motors.antt =====
-- The theorem on the motor's sessions at a burst that is fed.
use xiaomi_feeder_iv.Common.{ℕ, true, false, none, some, List, [], ◌∷◌, ◌≡◌, refl}
use xiaomi_feeder_iv.Motor.{
  cmd_stop, idle, jam_none, burst_done, Motor, beam, Inputs, motor_coast_stop_retry,
  motor_driver_start_ph, motor_driver_stop, motor_ctrl_force_stop, motor_ctrl_tick_elapsed,
  motor_ctrl_session_timed_out, motor_ctrl_post_app_event,
}
use xiaomi_feeder_iv.Motor.Session.{
  motor_ctrl_session_teardown, finish_done, motor_ctrl_note_io_success, note_beam,
  motor_ctrl_apply_beam_sample, motor_ctrl_try_index_sample, finish_session_beam, on_session_beam,
  motor_ctrl_poll_session_beam, is_index_timeout, index_jam, load_jam, or_index,
  motor_ctrl_detect_jam,
}
use xiaomi_feeder_iv.Motor.Antijam.{reset_run, first_beam_seen, run_forward, motor_ctrl_begin_run}
use xiaomi_feeder_iv.Motor.Task.{
  poll_beams, after_jam, motor_ctrl_poll_run, begin_cmd, motor_ctrl_handle_cmd, poll_phase, receive,
  motor_ctrl_task, motor_ctrl_enqueue, request, motor_ctrl_request_burst,
}
use xiaomi_feeder_iv.Motor.Events.{resting, Runs}
use xiaomi_feeder_iv.Motor.Balance.{
  act, Coasts, run-Runs, Action, turn, ask_burst, count_sessions, run,
}

abbrev at_rest : Motor
at_rest = record {
  running = false;
  en = false;
  locked = false;
  queue = [];
  posted = [];
  phase = idle;
  active_cmd = record { kind = cmd_stop; pulse_target = 0; timeout_ms = 0; max_pulses = 0 };
  pulses = 0;
  prev_beam_open = false;
  en_start_tick = 0;
  phase_end_tick = 0;
  sustained_over_ms = 0;
  antijam_retries = 0;
  instant_jam = false;
  io_fail_streak = 0;
  last_beam_poll_tick = 0;
  index_sample_after_tick = 0;
  last_jam_reason = jam_none;
}

-- A tick is a millisecond; the third try clears the pin, and the beam is open.
abbrev answers : ℕ → Inputs
answers now = record {
  ticks = λ ms. ms;
  now = now;
  session_tick = now;
  jam_tick = now;
  start_tick = now;
  mutex_ready = true;
  coast = (false, false, true);
  ph_ok = true;
  en_ok = true;
  adc_jam = some 200;
  adc_step = some 200;
  session_begin = true;
  first_beam = some false;
  sample_beam = beam true;
  poll_beam = beam true;
  sense = none;
  notify_index = false;
  notify_adc = false;
}

abbrev one_burst : List Action
one_burst = ask_burst 1 8000 ∷ turn (answers 100) (answers 110) ∷ []

run-Runs_example : Runs true (count_sessions one_burst at_rest 0) (run one_burst at_rest)
run-Runs_example =
    run-Runs true 0 one_burst at_rest
      (λ _. (unfold Coasts in tt, (unfold Coasts motor_coast_stop_retry in (refl, refl), tt)))
      (resting refl refl refl (λ _. refl) refl)

-- The burst is posted as done within the turn, and the motor is at rest again.
one_burst_ends : (run one_burst at_rest).posted ≡ burst_done ∷ []
unfolding run act motor_ctrl_task poll_phase receive motor_ctrl_request_burst request
    motor_ctrl_enqueue motor_ctrl_handle_cmd begin_cmd motor_ctrl_begin_run reset_run run_forward
    motor_driver_start_ph first_beam_seen motor_ctrl_poll_run after_jam motor_ctrl_detect_jam
    or_index load_jam index_jam is_index_timeout motor_ctrl_tick_elapsed
    motor_ctrl_session_timed_out motor_ctrl_try_index_sample poll_beams motor_ctrl_poll_session_beam
    on_session_beam finish_session_beam motor_ctrl_apply_beam_sample note_beam
    motor_ctrl_note_io_success finish_done motor_ctrl_force_stop motor_driver_stop
    motor_coast_stop_retry motor_ctrl_session_teardown motor_ctrl_post_app_event
one_burst_ends = refl
