-- ===== src/Motor/Session.antt =====
-- The end of a session, the beam and the jam detection, firmware/src/motor_ctrl.c.
use xiaomi_feeder_iv.Common.{
  ltb, leb, ◌==◌, if◌then◌else◌, u8, u32, sub32, ℕ, ◌+◌, Bool, false, not, ◌&&◌, ◌||◌, Option, none,
  some,
}
use xiaomi_feeder_iv.Motor.{
  jam_instant_ma, jam_sustained_ma, jam_sustained_ms, loop_slice_ms, index_irq_debounce_ms, idle,
  JamReason, jam_none, adc_isr, adc_instant, adc_sustained, index_timeout, Event, burst_done,
  park_done, motor_fault, Motor, BeamPoll, poll_busy, poll_failed, beam, Inputs,
  motor_ctrl_force_stop, motor_ctrl_tick_elapsed, is_idle, is_burst, is_park,
  motor_ctrl_post_app_event,
}

-- The index session, its interrupt and the jam interrupt end too.
unfoldable pub motor_ctrl_session_teardown : Inputs → Motor → Motor
motor_ctrl_session_teardown i m = record ((motor_ctrl_force_stop i m).1) {
  io_fail_streak = 0;
  last_beam_poll_tick = 0;
  phase = idle;
  locked = false;
}

unfoldable pub motor_ctrl_finish_fault : Inputs → Motor → Motor
motor_ctrl_finish_fault i m =
    motor_ctrl_post_app_event motor_fault (motor_ctrl_session_teardown i m)

-- The three `motor_ctrl_finish_..._done`, which differ in the event.
unfoldable pub finish_done : Event → Inputs → Motor → Motor
finish_done event i m =
    let (ok, stopped) = motor_ctrl_force_stop i m in
    if not ok
    then motor_ctrl_finish_fault i stopped
    else motor_ctrl_post_app_event event (motor_ctrl_session_teardown i stopped)

unfoldable pub motor_ctrl_note_io_failure : Inputs → Motor → Motor
motor_ctrl_note_io_failure i m =
    let streak = if ltb m.io_fail_streak 255 then m.io_fail_streak + 1 else m.io_fail_streak in
    let counted = record m { io_fail_streak = streak } in
    if leb 3 streak then motor_ctrl_finish_fault i counted else counted

unfoldable pub motor_ctrl_note_io_success : Motor → Motor
motor_ctrl_note_io_success m = record m { io_fail_streak = 0 }

unfoldable pub motor_ctrl_finish_park_already_aligned : Motor → Motor
motor_ctrl_finish_park_already_aligned m =
    motor_ctrl_post_app_event park_done (record m { locked = false })

unfoldable pub motor_ctrl_schedule_index_sample : Inputs → Motor → Motor
motor_ctrl_schedule_index_sample i m =
    let ready_at = u32 (i.now + i.ticks index_irq_debounce_ms) in
    if ltb m.index_sample_after_tick ready_at
    then record m { index_sample_after_tick = ready_at }
    else m

unfoldable pub note_beam : Bool → Motor → Motor
note_beam beam_open m = record m {
  pulses = if beam_open && not m.prev_beam_open then u8 (m.pulses + 1) else m.pulses;
  prev_beam_open = beam_open;
}

unfoldable pub motor_ctrl_apply_beam_sample : Bool → Inputs → Motor → Motor
unfolding note_beam
motor_ctrl_apply_beam_sample beam_open i m =
    let noted = note_beam beam_open m in
    if is_park noted.phase && beam_open then finish_done park_done i noted else noted

-- A burst that has its pulses ends.
unfoldable pub finish_if_fed : Inputs → Motor → Motor
finish_if_fed i m =
    if is_burst m.phase && leb m.active_cmd.pulse_target m.pulses
    then finish_done burst_done i m
    else m

unfoldable pub on_sample : BeamPoll → Inputs → Motor → Motor
on_sample poll_busy i m = record m { index_sample_after_tick = u32 (i.now + i.ticks loop_slice_ms) }
on_sample poll_failed i m = motor_ctrl_note_io_failure i (record m { index_sample_after_tick = 0 })
on_sample (beam beam_open) i m = finish_if_fed i (
    motor_ctrl_apply_beam_sample beam_open i
      (motor_ctrl_note_io_success (record m { index_sample_after_tick = 0 })))

unfoldable pub motor_ctrl_try_index_sample : Inputs → Motor → Motor
motor_ctrl_try_index_sample i m =
    if m.index_sample_after_tick == 0 || ltb i.now m.index_sample_after_tick
    then m
    else on_sample i.sample_beam i m

-- A park that has seen its last pulse ends.
unfoldable pub finish_if_parked : Inputs → Motor → Motor
finish_if_parked i m =
    if is_park m.phase && leb m.active_cmd.max_pulses m.pulses then finish_done park_done i m else m

unfoldable pub finish_session_beam : Inputs → Motor → Motor
finish_session_beam i m =
    if is_idle m.phase
    then m
    else if is_burst m.phase && leb m.active_cmd.pulse_target m.pulses
    then finish_done burst_done i m
    else finish_if_parked i m

unfoldable pub on_session_beam : BeamPoll → Inputs → Motor → Motor
on_session_beam poll_busy i m = m
on_session_beam poll_failed i m = motor_ctrl_note_io_failure i m
on_session_beam (beam beam_open) i m =
    finish_session_beam i (motor_ctrl_apply_beam_sample beam_open i (motor_ctrl_note_io_success m))

unfoldable pub motor_ctrl_poll_session_beam : ℕ → Inputs → Motor → Motor
motor_ctrl_poll_session_beam interval_ms i m =
    if not (m.last_beam_poll_tick == 0)
      && ltb (sub32 i.now m.last_beam_poll_tick) (i.ticks interval_ms)
    then m
    else on_session_beam i.poll_beam i (record m { last_beam_poll_tick = i.now })

unfoldable pub is_index_timeout : Inputs → Motor → Bool
is_index_timeout i m =
    is_burst m.phase
    && m.pulses == 0
    && ltb 0 m.active_cmd.timeout_ms
    && motor_ctrl_tick_elapsed i i.jam_tick m.en_start_tick m.active_cmd.timeout_ms

unfoldable pub index_jam : Inputs → Motor → JamReason
index_jam i m = if is_index_timeout i m then index_timeout else jam_none

-- What one sample of the current says: the time over the limit, and the jam that it shows.
unfoldable pub load_jam : Option ℕ → Motor → JamReason × ℕ
load_jam none m = (jam_none, m.sustained_over_ms)
load_jam (some ma) m =
    let over = u32 (m.sustained_over_ms + loop_slice_ms) in
    if ltb jam_instant_ma ma
    then (adc_instant, m.sustained_over_ms)
    else if ltb jam_sustained_ma ma
    then (if leb jam_sustained_ms over then adc_sustained else jam_none, over)
    else (jam_none, 0)

unfoldable pub or_index : JamReason × ℕ → Inputs → Motor → JamReason × Motor
or_index (jam_none, over) i m = (index_jam i m, record m { sustained_over_ms = over })
or_index (jam, over) i m = (jam, record m { sustained_over_ms = over })

unfoldable pub motor_ctrl_detect_jam : Inputs → Motor → JamReason × Motor
motor_ctrl_detect_jam i m =
    if m.instant_jam then (adc_isr, m) else or_index (load_jam i.adc_jam m) i m
