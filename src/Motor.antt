-- ===== src/Motor.antt =====
-- Motor control, firmware/src/motor_ctrl.c, and the driver, firmware/src/motor_driver.c. One step
-- of the task is a function of its state and of what the ports answer in that step. The logs, and
-- the two variables that only they read, are left out.
pub mod Session
pub mod Antijam
pub mod Task
pub mod Events
pub mod Polls
pub mod Recovery
pub mod Turns
pub mod Account
pub mod Balance
use xiaomi_feeder_iv.Common.{
  leb, if◌then◌else◌, sub32, ℕ, ◌-◌, Bool, true, false, not, Option, List, ◌∷◌,
}

abbrev pub jam_instant_ma : ℕ
jam_instant_ma = 1800

abbrev pub jam_sustained_ma : ℕ
jam_sustained_ma = 500

abbrev pub jam_sustained_ms : ℕ
jam_sustained_ms = 4000

abbrev pub anti_jam_reverse_ms : ℕ
anti_jam_reverse_ms = 1000

abbrev pub anti_jam_wiggle_ms : ℕ
anti_jam_wiggle_ms = 500

abbrev pub anti_jam_max_retries : ℕ
anti_jam_max_retries = 3

abbrev pub cmd_queue_depth : ℕ
cmd_queue_depth = 4

abbrev pub loop_slice_ms : ℕ
loop_slice_ms = 10

abbrev pub index_irq_debounce_ms : ℕ
index_irq_debounce_ms = 50

abbrev pub burst_beam_poll_ms : ℕ
burst_beam_poll_ms = 50

abbrev pub park_beam_poll_ms : ℕ
park_beam_poll_ms = 200

abbrev pub run_ms_max : ℕ
run_ms_max = 20_000

pub data CmdKind : Type 0 where
  cmd_burst cmd_park cmd_timed_fwd cmd_timed_rev cmd_stop : CmdKind

pub record Cmd : Type 0 where
  pub kind : CmdKind
  pub pulse_target : ℕ
  pub timeout_ms : ℕ
  pub max_pulses : ℕ

pub data Phase : Type 0 where
  idle run_burst run_park run_bench antijam_rev antijam_wiggle_fwd antijam_wiggle_rev : Phase

pub data JamReason : Type 0 where
  jam_none adc_isr adc_instant adc_sustained index_timeout session_timeout : JamReason

-- The events that the task posts to the application.
pub data Event : Type 0 where
  burst_done park_done timed_run_done motor_fault : Event

-- The static variables. `en` is the level last written to the motor's enable pin, `locked` whether
-- the mutex is taken, `posted` the events, the newest first.
pub record Motor : Type 0 where
  pub running : Bool
  pub en : Bool
  pub locked : Bool
  pub queue : List Cmd
  pub posted : List Event
  pub phase : Phase
  pub active_cmd : Cmd
  pub pulses : ℕ
  pub prev_beam_open : Bool
  pub en_start_tick : ℕ
  pub phase_end_tick : ℕ
  pub sustained_over_ms : ℕ
  pub antijam_retries : ℕ
  pub instant_jam : Bool
  pub io_fail_streak : ℕ
  pub last_beam_poll_tick : ℕ
  pub index_sample_after_tick : ℕ
  pub last_jam_reason : JamReason

-- What a poll of the index beam answers.
pub data BeamPoll : Type 0 where
  poll_busy poll_failed : BeamPoll
  beam : Bool → BeamPoll

-- The answers of the ports and the kernel in one step, one for each place that asks: the ticks of
-- the loop and of the later reads of the clock, three tries to clear the enable pin, the two pins
-- of a start, two samples of the motor current, the index beam, and the notification.
-- `ticks` is pdMS_TO_TICKS, and `mutex_ready` whether the mutex exists or could be made.
pub record Inputs : Type 0 where
  pub ticks : ℕ → ℕ
  pub now : ℕ
  pub session_tick : ℕ
  pub jam_tick : ℕ
  pub start_tick : ℕ
  pub mutex_ready : Bool
  pub coast : Bool × Bool × Bool
  pub ph_ok : Bool
  pub en_ok : Bool
  pub adc_jam : Option ℕ
  pub adc_step : Option ℕ
  pub session_begin : Bool
  pub first_beam : Option Bool
  pub sample_beam : BeamPoll
  pub poll_beam : BeamPoll
  pub sense : Option Bool
  pub notify_index : Bool
  pub notify_adc : Bool

unfoldable pub motor_coast_stop_retry : Bool × Bool × Bool → Bool
motor_coast_stop_retry (a, b, c) = if a then true else if b then true else c

-- The answer is whether the motor was started. The settle time of the direction pin, and its
-- release, change nothing here.
unfoldable pub motor_driver_start_ph : Inputs → Motor → Bool × Motor
motor_driver_start_ph i m =
    if m.running
    then (false, m)
    else if not i.ph_ok
    then (false, m)
    else if not i.en_ok
    then (false, m)
    else (true, record m { running = true; en = true })

unfoldable pub motor_driver_stop : Inputs → Motor → Bool × Motor
unfolding motor_coast_stop_retry
motor_driver_stop i m =
    if not m.running
    then (true, m)
    else (let ok = motor_coast_stop_retry i.coast in
        (ok, record m { running = false; en = if ok then false else m.en }))

unfoldable pub motor_ctrl_force_stop : Inputs → Motor → Bool × Motor
unfolding motor_driver_stop
motor_ctrl_force_stop i m = if not m.running then (true, m) else motor_driver_stop i m

-- `xTaskGetTickCount() - since >= pdMS_TO_TICKS(ms)`
unfoldable pub motor_ctrl_tick_elapsed : Inputs → ℕ → ℕ → ℕ → Bool
motor_ctrl_tick_elapsed i tick since ms = leb (i.ticks ms) (sub32 tick since)

abbrev pub is_idle : Phase → Bool
is_idle idle = true
is_idle _ = false

abbrev pub is_burst : Phase → Bool
is_burst run_burst = true
is_burst _ = false

abbrev pub is_park : Phase → Bool
is_park run_park = true
is_park _ = false

unfoldable pub motor_ctrl_session_timed_out : Inputs → Motor → Bool
unfolding motor_ctrl_tick_elapsed
motor_ctrl_session_timed_out i m =
    if is_idle m.phase
    then false
    else motor_ctrl_tick_elapsed i i.session_tick m.en_start_tick run_ms_max

unfoldable pub motor_ctrl_post_app_event : Event → Motor → Motor
motor_ctrl_post_app_event e m = record m { posted = e ∷ m.posted }
