-- ===== src/Motor/Task.antt =====
-- The task's loop and the requests of the other tasks, firmware/src/motor_ctrl.c, after
-- `motor_ctrl_start` has made the queue of commands.
use xiaomi_feeder_iv.Common.{
  ltb, leb, ◌==◌, if◌then◌else◌, length, u16, sub32, ℕ, Bool, true, false, not, ◌&&◌, ◌||◌, Option,
  none, some, List, [], ◌∷◌, ◌++◌,
}
use xiaomi_feeder_iv.Common.Port.{PortErr, port_ok, invalid_arg, port_busy}
use xiaomi_feeder_iv.Motor.{
  cmd_queue_depth, burst_beam_poll_ms, park_beam_poll_ms, run_ms_max, CmdKind, cmd_burst, cmd_park,
  cmd_timed_fwd, cmd_timed_rev, cmd_stop, Cmd, Phase, idle, run_burst, run_park, run_bench,
  antijam_rev, antijam_wiggle_fwd, antijam_wiggle_rev, JamReason, jam_none, burst_done,
  timed_run_done, Motor, Inputs, is_idle, is_burst, is_park, motor_ctrl_session_timed_out,
}
use xiaomi_feeder_iv.Motor.Session.{
  motor_ctrl_session_teardown, motor_ctrl_finish_fault, finish_done,
  motor_ctrl_finish_park_already_aligned, motor_ctrl_schedule_index_sample,
  motor_ctrl_try_index_sample, motor_ctrl_poll_session_beam, motor_ctrl_detect_jam,
}
use xiaomi_feeder_iv.Motor.Antijam.{
  motor_ctrl_begin_antijam, motor_ctrl_begin_run, motor_ctrl_begin_bench_run,
  motor_ctrl_after_antijam_step,
}

-- `(int32_t)(now - s_phase_end_tick) < 0`
unfoldable pub before_end : Inputs → Motor → Bool
before_end i m = leb 2_147_483_648 (sub32 i.now m.phase_end_tick)

unfoldable pub motor_ctrl_poll_bench : Inputs → Motor → Motor
motor_ctrl_poll_bench i m = if before_end i m then m else finish_done timed_run_done i m

-- The delay while the phase lasts changes nothing.
unfoldable pub motor_ctrl_poll_antijam : Inputs → Motor → Motor
motor_ctrl_poll_antijam i m =
    if motor_ctrl_session_timed_out i m
    then motor_ctrl_finish_fault i m
    else if before_end i m
    then m
    else motor_ctrl_after_antijam_step i m

-- The wait for a notification.
unfoldable pub on_notify : Inputs → Motor → Motor
on_notify i m =
    let scheduled = if i.notify_index then motor_ctrl_schedule_index_sample i m else m in
    if i.notify_adc then record scheduled { instant_jam = true } else scheduled

-- The wait is skipped when a poll of the beam has ended the session.
unfoldable pub poll_park_beam : Inputs → Motor → Motor
poll_park_beam i m =
    let polled = motor_ctrl_poll_session_beam park_beam_poll_ms i m in
    if not (is_park m.phase)
    then on_notify i m
    else if is_idle polled.phase
    then polled
    else on_notify i polled

unfoldable pub poll_beams : Inputs → Motor → Motor
poll_beams i m =
    let polled = motor_ctrl_poll_session_beam burst_beam_poll_ms i m in
    if not (is_burst m.phase)
    then poll_park_beam i m
    else if is_idle polled.phase
    then polled
    else poll_park_beam i polled

unfoldable pub after_jam : Inputs → JamReason × Motor → Motor
after_jam i (jam_none, m) =
    if is_burst m.phase && leb m.active_cmd.pulse_target m.pulses
    then finish_done burst_done i m
    else poll_beams i (motor_ctrl_try_index_sample i m)
after_jam i (jam, m) = motor_ctrl_begin_antijam jam i m

unfoldable pub motor_ctrl_poll_run : Inputs → Motor → Motor
motor_ctrl_poll_run i m =
    if motor_ctrl_session_timed_out i m
    then motor_ctrl_finish_fault i m
    else after_jam i (motor_ctrl_detect_jam i m)

unfoldable pub beam_is_open : Option Bool → Bool
beam_is_open none = false
beam_is_open (some b) = b

unfoldable pub begin_cmd : CmdKind → Inputs → Motor → Motor
begin_cmd cmd_park i m =
    if beam_is_open i.sense
    then motor_ctrl_finish_park_already_aligned m
    else motor_ctrl_begin_run true i m
begin_cmd cmd_timed_fwd i m = motor_ctrl_begin_bench_run i m
begin_cmd cmd_timed_rev i m = motor_ctrl_begin_bench_run i m
begin_cmd cmd_burst i m = motor_ctrl_begin_run false i m
begin_cmd cmd_stop i m = motor_ctrl_begin_run false i m

abbrev pub is_stop : CmdKind → Bool
is_stop cmd_stop = true
is_stop _ = false

-- A command that finds the mutex taken goes back to the front of the queue, if it has room.
unfoldable pub put_back : Cmd → Motor → Motor
put_back cmd m =
    if ltb (length m.queue) cmd_queue_depth then record m { queue = cmd ∷ m.queue } else m

unfoldable pub motor_ctrl_handle_cmd : Cmd → Inputs → Motor → Motor
motor_ctrl_handle_cmd cmd i m =
    if is_stop cmd.kind
    then (if is_idle m.phase
        then m
        else motor_ctrl_session_teardown i (record m { instant_jam = false }))
    else if not i.mutex_ready || m.locked
    then put_back cmd m
    else begin_cmd cmd.kind i (record m { locked = true; active_cmd = cmd; antijam_retries = 0 })

unfoldable pub poll_phase : Phase → Inputs → Motor → Motor
poll_phase idle i m = m
poll_phase run_burst i m = motor_ctrl_poll_run i m
poll_phase run_park i m = motor_ctrl_poll_run i m
poll_phase run_bench i m = motor_ctrl_poll_bench i m
poll_phase antijam_rev i m = motor_ctrl_poll_antijam i m
poll_phase antijam_wiggle_fwd i m = motor_ctrl_poll_antijam i m
poll_phase antijam_wiggle_rev i m = motor_ctrl_poll_antijam i m

unfoldable pub receive : List Cmd → Inputs → Motor → Motor
receive [] i m = m
receive (cmd ∷ cmds) i m = motor_ctrl_handle_cmd cmd i (record m { queue = cmds })

-- One turn of the loop: the handling of a command has `begin`'s answers, and the poll `i`'s.
unfoldable pub motor_ctrl_task : Inputs → Inputs → Motor → Motor
motor_ctrl_task begin i m =
    let received = receive m.queue begin m in poll_phase received.phase i received

unfoldable pub motor_ctrl_enqueue : Cmd → Motor → PortErr × Motor
motor_ctrl_enqueue cmd m =
    if ltb (length m.queue) cmd_queue_depth
    then (port_ok, record m { queue = m.queue ++ (cmd ∷ []) })
    else (port_busy, m)

unfoldable pub request : Cmd → Motor → PortErr × Motor
request cmd m = if not (is_idle m.phase) then (port_busy, m) else motor_ctrl_enqueue cmd m

unfoldable pub motor_ctrl_request_burst : ℕ → ℕ → Motor → PortErr × Motor
motor_ctrl_request_burst pulse_target timeout_ms m =
    if pulse_target == 0 || timeout_ms == 0
    then (invalid_arg, m)
    else request
        (record {
          kind = cmd_burst;
          pulse_target = pulse_target;
          timeout_ms = timeout_ms;
          max_pulses = 0;
        })
        m

unfoldable pub motor_ctrl_request_park : ℕ → Motor → PortErr × Motor
motor_ctrl_request_park max_pulses m =
    if max_pulses == 0
    then (invalid_arg, m)
    else request
        (record { kind = cmd_park; pulse_target = 0; timeout_ms = 0; max_pulses = max_pulses }) m

unfoldable pub motor_ctrl_request_timed_run : Bool → ℕ → Motor → PortErr × Motor
motor_ctrl_request_timed_run reverse duration_ms m =
    if duration_ms == 0 || ltb run_ms_max duration_ms
    then (invalid_arg, m)
    else request
        (record {
          kind = if reverse then cmd_timed_rev else cmd_timed_fwd;
          pulse_target = 0;
          timeout_ms = u16 duration_ms;
          max_pulses = 0;
        })
        m

unfoldable pub motor_ctrl_request_stop : Motor → PortErr × Motor
motor_ctrl_request_stop m =
    motor_ctrl_enqueue
      (record { kind = cmd_stop; pulse_target = 0; timeout_ms = 0; max_pulses = 0 }) m
