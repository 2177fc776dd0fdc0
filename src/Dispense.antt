-- ===== src/Dispense.antt =====
-- The dispense supervisor, firmware/src/dispense.c, with the modules it calls: the hopper, the
-- tare, the schedule and the run-time flag of firmware/src/feeder_runtime.c.
-- What the scale, the motor and the bowl snapshot of the application answer is an argument of each
-- operation; a request that is posted and a completion that is published are results.
pub mod Settle
pub mod Start
pub mod Flag
pub mod Round
pub mod Batches
pub mod Portions
use xiaomi_feeder_iv.Common.{
  ltb, if◌then◌else◌, ℕ, ◌+◌, min, Bool, true, false, not, ◌&&◌, ◌||◌, Option, none, some,
}
use xiaomi_feeder_iv.Common.Int.{ℤ, pos, leb_ℤ}
use xiaomi_feeder_iv.Tare.{
  CalStatus, cal_uncalibrated, bowl_error_eval, bowl_error_is_active, Tare, auto_tare_anchor,
}
use xiaomi_feeder_iv.Hopper.{HopperInput, hopper_input_notify_dispense_complete}
use xiaomi_feeder_iv.Hopper.Level.{
  Outcome, success, stuck, underfill, empty_hopper, aborted, LevelState,
  hopper_level_on_dispense_finished,
}
use xiaomi_feeder_iv.Schedule.{pending, Schedule}
use xiaomi_feeder_iv.Schedule.Poll.{
  DispenseOutcome, dispense_ok, dispense_underfill, dispense_failed, schedule_active_slot,
}
use xiaomi_feeder_iv.Schedule.Complete.{schedule_on_dispense_complete}

abbrev pub portions_min : ℕ
portions_min = 1

abbrev pub portions_max : ℕ
portions_max = 15

abbrev pub baseline_fresh_ms : ℕ
baseline_fresh_ms = 2000

abbrev pub settle_ms : ℕ
settle_ms = 3000

abbrev pub grams_per_portion : ℕ
grams_per_portion = 10

abbrev pub comp_tolerance_dg : ℕ
comp_tolerance_dg = 50

abbrev pub comp_max_batches : ℕ
comp_max_batches = 3

abbrev pub zero_delta_giveup : ℕ
zero_delta_giveup = 3

pub data DispensePhase : Type 0 where
  phase_none phase_motor phase_settle : DispensePhase

pub data DispenseKind : Type 0 where
  kind_portions kind_grams : DispenseKind

pub data SubmitResult : Type 0 where
  submit_ok submit_busy submit_invalid submit_queue_full : SubmitResult

pub data DispenseSource : Type 0 where
  from_mqtt from_uart from_button from_schedule : DispenseSource

pub data DispenseMode : Type 0 where
  open_loop compensated : DispenseMode

pub record Request : Type 0 where
  pub kind : DispenseKind
  pub target : ℕ
  pub source : DispenseSource

-- `dispense_completion_t`; the slot is `has_slot`, `slot_hour` and `slot_min`.
pub record Completion : Type 0 where
  pub grams : ℤ
  pub grams_estimated : Bool
  pub target_g : ℕ
  pub outcome : Outcome
  pub source : DispenseSource
  pub mode : DispenseMode
  pub batch_count : ℕ
  pub portions : ℕ
  pub slot : Option (ℕ × ℕ)

pub record Dispense : Type 0 where
  pub job_pending : Bool
  pub phase : DispensePhase
  pub outcome : Outcome
  pub source : DispenseSource
  pub portions : ℕ
  pub total_portions : ℕ
  pub target_grams : ℕ
  pub target_dg : ℤ
  pub gram_job : Bool
  pub mode : DispenseMode
  pub batch_count : ℕ
  pub baseline_dg : ℤ
  pub last_settle_dg : ℤ
  pub baseline_valid : Bool
  pub settle_start_ms : ℕ
  pub zero_delta_streak : ℕ

-- The supervisor with what its calls change.
pub record Feeder : Type 0 where
  pub job : Dispense
  pub dispense_active : Bool
  pub tare : Tare
  pub input : HopperInput
  pub level : LevelState
  pub schedule : Schedule

-- `app_bowl_dg_snapshot`, when it answers true.
pub record BowlSnapshot : Type 0 where
  pub valid : Bool
  pub sample_age_ms : ℕ
  pub dg : ℤ

-- What the ports answer during one operation: the scale's reading and its calibration, the
-- snapshot, whether the motor takes a burst, and the configured mode.
pub record Answers : Type 0 where
  pub read_dg : Option ℤ
  pub cal_status : Option CalStatus
  pub snapshot : Option BowlSnapshot
  pub motor_takes : Bool
  pub feed_mode : DispenseMode

unfoldable pub is_running : DispensePhase → Bool
is_running phase_none = false
is_running phase_motor = true
is_running phase_settle = true

unfoldable pub dispense_is_active : Dispense → Bool
unfolding is_running
dispense_is_active d = d.job_pending || is_running d.phase

unfoldable pub dispense_sync_runtime_active : Feeder → Feeder
unfolding dispense_is_active
dispense_sync_runtime_active f = record f { dispense_active = dispense_is_active f.job }

-- The two reads of `dispense_capture_baseline`: with `anchor` when calibration is pending.
unfoldable pub baseline_from_read : Bool → Option ℤ → Feeder → Feeder
baseline_from_read anchor none f = record f { job = record (f.job) { baseline_valid = false } }
baseline_from_read anchor (some dg) f = record f {
  tare = if anchor then auto_tare_anchor dg f.tare else f.tare;
  job = record (f.job) { baseline_dg = dg; baseline_valid = true };
}

unfoldable pub fresh_snapshot : Option BowlSnapshot → Option ℤ
fresh_snapshot none = none
fresh_snapshot (some snap) =
    if snap.valid && ltb snap.sample_age_ms baseline_fresh_ms then some snap.dg else none

unfoldable pub baseline_from : Option ℤ → Answers → Feeder → Feeder
unfolding baseline_from_read
baseline_from none a f = baseline_from_read false a.read_dg f
baseline_from (some dg) a f = record f {
  job = record (f.job) { baseline_dg = dg; baseline_valid = true };
}

unfoldable pub dispense_capture_baseline : Answers → Feeder → Feeder
unfolding baseline_from baseline_from_read fresh_snapshot
dispense_capture_baseline a f =
    if f.tare.pending_calibration
    then baseline_from_read true a.read_dg f
    else baseline_from (fresh_snapshot a.snapshot) a f

-- With no port, the calibration counts as missing.
unfoldable pub cal_or_none : Option CalStatus → CalStatus
cal_or_none none = cal_uncalibrated
cal_or_none (some cal) = cal

unfoldable pub dispense_scale_trusted : Answers → ℤ → Bool → Bool
unfolding cal_or_none
dispense_scale_trusted a dg valid =
    if not valid
    then false
    else not (bowl_error_is_active (bowl_error_eval (cal_or_none a.cal_status) true dg))

unfoldable pub dispense_update_zero_delta_streak : ℤ → Dispense → Dispense
dispense_update_zero_delta_streak raw_delta d =
    if leb_ℤ raw_delta (pos 0)
    then record d {
      zero_delta_streak =
          if ltb d.zero_delta_streak 255 then d.zero_delta_streak + 1 else d.zero_delta_streak;
    }
    else record d { zero_delta_streak = 0 }

unfoldable pub dispense_resolve_mode : Answers → Request → DispenseMode
dispense_resolve_mode a req = elim req.kind [
  | kind_grams ↦ a.feed_mode
  | kind_portions ↦ elim req.source [
    | from_uart ↦ open_loop
    | from_mqtt ↦ a.feed_mode
    | from_button ↦ a.feed_mode
    | from_schedule ↦ a.feed_mode
  ]
]

unfoldable pub is_from_schedule : DispenseSource → Bool
is_from_schedule from_mqtt = false
is_from_schedule from_uart = false
is_from_schedule from_button = false
is_from_schedule from_schedule = true

unfoldable pub schedule_outcome : Outcome → DispenseOutcome
schedule_outcome success = dispense_ok
schedule_outcome underfill = dispense_underfill
schedule_outcome stuck = dispense_failed
schedule_outcome empty_hopper = dispense_failed
schedule_outcome aborted = dispense_failed

unfoldable pub report_to_schedule :
    DispenseSource → Outcome → ℤ → Option (ℕ × ℕ) → Schedule → Schedule
unfolding is_from_schedule schedule_outcome
report_to_schedule source outcome grams none s = s
report_to_schedule source outcome grams (some (hour, min)) s =
    if is_from_schedule source
    then schedule_on_dispense_complete
        (record { hour = hour; min = min; grams = grams; outcome = schedule_outcome outcome }) s
    else s

-- The completion that is published, and the new state.
unfoldable pub dispense_publish_terminal : ℕ → ℤ → Bool → ℤ → Feeder → Completion × Feeder
unfolding report_to_schedule dispense_sync_runtime_active
dispense_publish_terminal now_ms event_grams measured raw_delta f =
    let (outcome, level) =
      hopper_level_on_dispense_finished f.job.outcome raw_delta measured now_ms f.input f.level in
    let slot = schedule_active_slot f.schedule in
    (
      record {
        grams = event_grams;
        grams_estimated = not measured;
        target_g = f.job.target_grams;
        outcome = outcome;
        source = f.job.source;
        mode = f.job.mode;
        batch_count = f.job.batch_count;
        portions = f.job.total_portions;
        slot = slot;
      },
      dispense_sync_runtime_active (record f {
        level = level;
        schedule = report_to_schedule f.job.source outcome event_grams slot f.schedule;
        input = hopper_input_notify_dispense_complete f.input;
        job = record (f.job) {
          outcome = outcome;
          phase = phase_none;
          job_pending = false;
          gram_job = false;
        };
      }),
    )
