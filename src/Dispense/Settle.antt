-- ===== src/Dispense/Settle.antt =====
-- The end of a batch and the start of a job, firmware/src/dispense.c.
use xiaomi_feeder_iv.Common.{
  ltb, leb, ◌==◌, if◌then◌else◌, u8, sub32, ℕ, ◌+◌, ◌*◌, Bool, true, false, not, ◌&&◌, ◌||◌, Option,
  none, some,
}
use xiaomi_feeder_iv.Common.Int.{ℤ, pos, negsuc, pos_part, ◌+ℤ◌, ◌-ℤ◌, ltb_ℤ, leb_ℤ, tdiv}
use xiaomi_feeder_iv.Tare.{auto_tare_anchor}
use xiaomi_feeder_iv.Hopper.Level.{Outcome, success, stuck, underfill, empty_hopper, aborted}
use xiaomi_feeder_iv.Dispense.{
  portions_max, settle_ms, grams_per_portion, comp_tolerance_dg, comp_max_batches,
  zero_delta_giveup, DispensePhase, phase_none, phase_motor, phase_settle, DispenseMode, open_loop,
  compensated, Completion, Dispense, Feeder, Answers, is_running, dispense_sync_runtime_active,
  dispense_scale_trusted, dispense_update_zero_delta_streak, dispense_publish_terminal,
}

-- WEIGHT_DG_TO_G_ROUND of firmware/inc/weight_units.h.
unfoldable pub weight_dg_to_g_round : ℤ → ℤ
weight_dg_to_g_round dg = tdiv (dg +ℤ (if leb_ℤ (pos 0) dg then pos 5 else negsuc 4)) 10

-- What the code knows after the scale was read: the weight delivered, the difference that the
-- hopper is told, the grams to report, whether they are measured, and the job's new streak.
pub record Weighed : Type 0 where
  pub delivered : ℤ
  pub raw_delta : ℤ
  pub event_grams : ℤ
  pub measured : Bool
  pub job : Dispense

unfoldable pub clamp_grams : ℤ → ℤ
clamp_grams g = if ltb_ℤ g (pos 0) then pos 0 else g

unfoldable pub note_batch : ℤ → Dispense → Dispense
unfolding dispense_update_zero_delta_streak
note_batch post_dg d = record (dispense_update_zero_delta_streak (post_dg -ℤ d.last_settle_dg) d) {
  last_settle_dg = post_dg;
}

unfoldable pub estimated : Dispense → ℤ → Dispense → Weighed
estimated d raw_delta after = record {
  delivered = pos (d.total_portions * (grams_per_portion * 10));
  raw_delta = raw_delta;
  event_grams = pos (d.total_portions * grams_per_portion);
  measured = false;
  job = after;
}

unfoldable pub is_measured : Answers → ℤ → Dispense → Bool
is_measured a post_dg d =
    d.baseline_valid
    && dispense_scale_trusted a d.baseline_dg d.baseline_valid
    && dispense_scale_trusted a post_dg true

unfoldable pub weigh_batch : Answers → Option ℤ → Dispense → Weighed
unfolding weight_dg_to_g_round clamp_grams note_batch estimated is_measured
weigh_batch a none d = estimated d (pos 0) d
weigh_batch a (some post_dg) d =
    if is_measured a post_dg d
    then record {
      delivered = post_dg -ℤ d.baseline_dg;
      raw_delta = post_dg -ℤ d.baseline_dg;
      event_grams = clamp_grams (weight_dg_to_g_round (post_dg -ℤ d.baseline_dg));
      measured = true;
      job = note_batch post_dg d;
    }
    else (if d.baseline_valid
        then estimated d (post_dg -ℤ d.baseline_dg) (note_batch post_dg d)
        else estimated d (pos 0) d)

-- What to do with a weighed batch.
pub data Verdict : Type 0 where
  ends : Outcome → Verdict
  again : ℕ → Verdict

unfoldable pub is_stuck : Outcome → Bool
is_stuck stuck = true
is_stuck success = false
is_stuck underfill = false
is_stuck empty_hopper = false
is_stuck aborted = false

unfoldable pub is_open_loop : DispenseMode → Bool
is_open_loop open_loop = true
is_open_loop compensated = false

-- The portions of one more batch.
unfoldable pub extra_portions : ℤ → ℕ
extra_portions deficit =
    let extra = u8 (pos_part (tdiv deficit (grams_per_portion * 10))) in
    if ltb extra 1 then 1 else (if ltb portions_max extra then portions_max else extra)

unfoldable pub verdict : Weighed → Verdict
verdict w =
    let d = w.job in
    if is_stuck d.outcome || is_open_loop d.mode || not w.measured
    then ends d.outcome
    else if leb_ℤ d.target_dg w.delivered
    then ends success
    else if leb_ℤ (d.target_dg -ℤ pos comp_tolerance_dg) w.delivered
    then ends success
    else if leb comp_max_batches d.batch_count
    then ends underfill
    else if leb zero_delta_giveup d.zero_delta_streak
    then ends underfill
    else again (extra_portions (d.target_dg -ℤ w.delivered))

unfoldable pub next_batch : ℕ → Feeder → Feeder
next_batch extra f = dispense_sync_runtime_active (record f {
  job = record (f.job) {
    total_portions = u8 (f.job.total_portions + extra);
    batch_count = u8 (f.job.batch_count + 1);
    phase = phase_motor;
    settle_start_ms = 0;
  };
})

unfoldable pub finish : ℕ → Weighed → Outcome → Feeder → Option Completion × Feeder
finish now_ms w outcome f =
    let (c, g) =
      dispense_publish_terminal now_ms w.event_grams w.measured w.raw_delta
        (record f { job = record (f.job) { outcome = outcome } }) in
    (some c, g)

unfoldable pub conclude : ℕ → Answers → Weighed → Verdict → Feeder → Option Completion × Feeder
unfolding finish next_batch
conclude now_ms a w (ends outcome) f = finish now_ms w outcome f
conclude now_ms a w (again extra) f =
    if a.motor_takes then (none, next_batch extra f) else finish now_ms w aborted f

unfoldable pub anchored : Option ℤ → Feeder → Feeder
anchored none f = f
anchored (some post_dg) f = record f { tare = auto_tare_anchor post_dg f.tare }

-- The completion, if the job ends here, and the new state.
unfoldable pub dispense_after_settle : ℕ → Answers → Feeder → Option Completion × Feeder
dispense_after_settle now_ms a f =
    if not (is_running f.job.phase)
    then (none, f)
    else (let w = weigh_batch a a.read_dg f.job in
        conclude now_ms a w (verdict w) (record (anchored a.read_dg f) { job = w.job }))

unfoldable pub dispense_begin_settle : Outcome → Feeder → Feeder
dispense_begin_settle outcome f = dispense_sync_runtime_active (record f {
  job = record (f.job) { outcome = outcome; phase = phase_settle; settle_start_ms = 0 };
})

unfoldable pub is_motor : DispensePhase → Bool
is_motor phase_none = false
is_motor phase_motor = true
is_motor phase_settle = false

unfoldable pub is_settle : DispensePhase → Bool
is_settle phase_none = false
is_settle phase_motor = false
is_settle phase_settle = true

unfoldable pub dispense_on_burst_done : Feeder → Bool × Feeder
dispense_on_burst_done f =
    if not (is_motor f.job.phase) then (false, f) else (true, dispense_begin_settle success f)

unfoldable pub dispense_on_motor_fault : Feeder → Bool × Feeder
dispense_on_motor_fault f =
    if not (is_motor f.job.phase) then (false, f) else (true, dispense_begin_settle stuck f)

unfoldable pub dispense_poll : ℕ → Answers → Feeder → Option Completion × Feeder
dispense_poll now_ms a f =
    if not (is_settle f.job.phase)
    then (none, f)
    else if f.job.settle_start_ms == 0
    then (none, record f { job = record (f.job) { settle_start_ms = now_ms } })
    else if ltb (sub32 now_ms f.job.settle_start_ms) settle_ms
    then (none, f)
    else dispense_after_settle now_ms a f
